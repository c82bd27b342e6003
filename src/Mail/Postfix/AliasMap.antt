-- ===== src/Mail/Postfix/AliasMap.antt =====
-- The alias map, which resolves an address and encodes what it finds.
use mathlib.Core.List.{Memᴰ}
use mailu.Prelude.{
  first-mem, first, ◌≡◌, refl, ap, ◌≢◌, inl, inr, Bool, true, false, Option, none, some, List, [],
  ◌∷◌, arith, ltb, Bool-cases, is_some, all, Bytes, bytes_eq, rsplit, count, lower, rsplit-some,
}
use mailu.Mail.{
  Result, returned, raised, ◌>>=◌, Idna, User, Alternative, Db, at, required, bind_domain,
  read_domain, get_alternative, get_user, Gives, Gives-bind, Gives-if,
}
use mailu.Mail.Bind.{rsplit-at}
use mailu.Mail.Resolve.{
  split_address, resolve_domain, resolve_destination, find_mailbox, mailbox_destination,
}
use mailu.Mail.Resolve.Destination.{
  encodes, Deliverable, IsLookup, Encoded, resolve_destination-Gives,
}
use mailu.Mail.Postfix.{
  not_found, Settings, unsupported_address, encode_address, idna_encode, answer_list, alias_of,
  alias_map,
}
use mailu.Mail.Postfix.Answers.{is_some_inverse, unsupported_inverse}

-- the name of a domain that an alternative stands for
pub record IsName (idna : Idna) (stored : Bytes) : Type 0 where
  pub name : Bytes
  pub key : Bytes
  pub reads : idna.decode stored ≡ some name
  pub plain : count b'@' name ≡ 0
  pub bound : idna.encode (lower name) ≡ some key
  pub typed : is_some (idna.encode name) ≡ true

-- an address in its parts, which can be looked up when it has a local part
abbrev IsSplit : Idna → Option Bytes × Bytes → Type 0
IsSplit idna parts = (l : Bytes) → parts.0 ≡ some l → IsLookup idna l parts.1

module _ (idna : Idna) where
  parts-Gives :
      (o : Option (Bytes × Bytes))
      → elim o [ none ↦ false | some (l, d) ↦ is_some (idna.encode d) ] ≡ true
      → Gives
          (λ _. Unit {0})
          (elim o [
            | none ↦ raised
            | some (l, d) ↦ do encoded ← required (idna.encode d); returned (at l encoded)
          ])
  parts-Gives none h = cc
  parts-Gives (some (l, d)) h =
      let (k, e) = is_some_inverse (idna.encode d) h in
      (at l k, ap (λ r. required r >>= λ encoded. returned (at l encoded)) e, tt)

  encode_address-Gives :
      (address : Bytes)
      → encodes idna address ≡ true
      → Gives (λ _. Unit {0}) (encode_address idna address)
  unfolding encode_address encodes
  encode_address-Gives address h = parts-Gives (rsplit b'@' address) h

  idna_encode-Gives :
      (l : List Bytes) → all (encodes idna) l ≡ true → Gives (λ _. Unit {0}) (idna_encode idna l)
  unfolding idna_encode
  idna_encode-Gives [] h = ([], refl, tt)
  idna_encode-Gives (x ∷ xs) h =
      Gives-bind _ _ (encode_address-Gives x (ground arith))
        (λ a t. Gives-bind _ _ (idna_encode-Gives xs (ground arith)) (λ b s. (_, refl, tt)))

  answer_list-Gives :
      (o : Option (List Bytes)) → Encoded idna o → Gives (λ _. Unit {0}) (answer_list idna o)
  unfolding answer_list
  answer_list-Gives none h = (_, refl, tt)
  answer_list-Gives (some []) h = (_, refl, tt)
  answer_list-Gives (some (x ∷ xs)) h =
      Gives-bind _ _ (idna_encode-Gives (x ∷ xs) (h (x ∷ xs) refl)) (λ b s. (_, refl, tt))

  module _ (db : Db)
      (names : (a : Alternative) → Memᴰ a db.alternatives → IsName idna a.domain_name) where
    alternative-Gives :
        (lp : Option Bytes) (domain_name : Bytes) (o : Option Alternative)
        → ((a : Alternative) → o ≡ some a → Memᴰ a db.alternatives)
        → IsSplit idna (lp, domain_name)
        → Gives (IsSplit idna) (elim o [
          | none ↦ returned (lp, domain_name)
          | some alternative ↦ do
            name ← read_domain idna alternative.domain_name
            returned (lp, name)
        ])
    unfolding read_domain
    alternative-Gives lp domain_name none m s = (_, refl, s)
    alternative-Gives lp domain_name (some a) m s =
        let n = names a (m a refl) in
        (
          (lp, n.name),
          ap (λ r. required r >>= λ name. returned (lp, name)) n.reads,
          λ l e. record {
            local_plain = (s l e).local_plain;
            domain_plain = n.plain;
            key = n.key;
            bound = n.bound;
            typed = n.typed;
          },
        )

    get_alternative-Gives :
        (domain_name key : Bytes)
        → idna.encode (lower domain_name) ≡ some key
        → Gives
            (λ o. (a : Alternative) → o ≡ some a → Memᴰ a db.alternatives)
            (get_alternative idna db domain_name)
    unfolding get_alternative bind_domain
    get_alternative-Gives domain_name key bound = (
      _,
      ap
          (λ r. required r >>= λ key.
            returned (first (λ (a : Alternative). bytes_eq a.name key) db.alternatives))
          bound,
      λ a e. first-mem _ db.alternatives e,
    )

    resolve_domain-Gives :
        (email : Bytes) (key : Bytes)
        → idna.encode (lower (split_address email).1) ≡ some key
        → IsSplit idna (split_address email)
        → Gives (IsSplit idna) (resolve_domain idna db email)
    unfolding resolve_domain
    resolve_domain-Gives email key bound s =
        Gives-bind _ _ (get_alternative-Gives (split_address email).1 key bound)
          (λ o m. alternative-Gives (split_address email).0 (split_address email).1 o m s)

  split_address-IsSplit :
      (email : Bytes) (o : Option (Bytes × Bytes))
      → rsplit b'@' email ≡ o
      → ltb 1 (count b'@' email) ≡ false
      → (key : Bytes) → idna.encode (lower (split_address email).1) ≡ some key
      → is_some (idna.encode (split_address email).1) ≡ true
      → IsSplit idna (split_address email)
  unfolding split_address
  split_address-IsSplit email none e many key bound typed l h = absurd (ground arith)
  split_address-IsSplit email (some (l', d)) e many key bound typed l h =
      let (parts, counted, plain) = rsplit-some b'@' email l' d e in
      record {
        local_plain = ground arith;
        domain_plain = ground arith;
        key = key;
        bound = bound;
        typed = typed;
      }

  ne_raised {ℓ κ} : {A : Type ℓ} {P : A → Type κ} (r : Result A) → Gives P r → r ≢ raised
  ne_raised r (a, e, p) h = ground arith

  module _ (like : Bytes → Bytes → Bool) (settings : Settings) (db : Db)
      (names : (a : Alternative) → Memᴰ a db.alternatives → IsName idna a.domain_name)
      (valid : Deliverable idna db) where
    alias_of-Gives :
        (parts : Option Bytes × Bytes)
        → IsSplit idna parts
        → Gives (λ _. Unit {0}) (alias_of idna like settings db parts)
    unfolding alias_of
    alias_of-Gives (none, d) s = (_, refl, tt)
    alias_of-Gives (some l, d) s =
        Gives-bind _ _
          (resolve_destination-Gives idna db l d (s l refl) like valid settings.environ_delimiter
            false)
          answer_list-Gives

    -- Whatever Postfix asks the alias map for, no exception leaves the handler: when the names and the
    -- destinations in the tables can be encoded and the domain asked for can be encoded as it is typed.
    pub alias_map-ne-raised :
        (alias : Bytes)
        → is_some (idna.encode (split_address alias).1) ≡ true
        → alias_map idna like settings db alias ≢ raised
    unfolding alias_map
    alias_map-ne-raised alias typed = elim (Bool-cases (unsupported_address idna false alias)) [
      | inl t ↦ ne_raised {P = λ _. Unit {0}} _ (not_found, rw t, tt)
      | inr f ↦
          let (many, one, (key, bound)) = unsupported_inverse idna false alias f in
          ne_raised {P = λ _. Unit {0}} _ (
            Gives-if (unsupported_address idna false alias) (not_found, refl, tt)
              (Gives-bind _ _
                (resolve_domain-Gives db names alias key bound
                  (split_address-IsSplit alias _ refl many key bound typed))
                alias_of-Gives))
    ]

  module _ (like : Bytes → Bytes → Bool) (settings : Settings) (db : Db) where
    -- The domain of a mailbox is encoded as it was typed: where only its lower case can be encoded, a
    -- supported lookup of that mailbox ends in an exception.
    pub alias_map-raised :
        (l d : Bytes) (u : User)
        → count b'@' d ≡ 0
        → unsupported_address idna false (at l d) ≡ false
        → get_alternative idna db d ≡ returned none
        → get_user idna db (at l d) ≡ returned (some u)
        → u.forward_enabled ≡ false
        → idna.encode d ≡ none
        → alias_map idna like settings db (at l d) ≡ raised
    unfolding alias_map resolve_domain split_address alias_of resolve_destination find_mailbox
        mailbox_destination answer_list idna_encode encode_address
    alias_map-raised l d u plain supported other found keeps typed = ground (arith, rsplit-at l d)
