-- ===== src/Mail/Postfix/Answers.antt =====
-- The maps answer what they are asked: no supported lookup ends in an exception.
use mailu.Prelude.{
  first, first-eq, ◌≡◌, refl, ap, ◌∙◌, ◌≢◌, ◌⊎◌, inl, inr, Bool, true, false, not, ◌&&◌, Option,
  none, some, arith, ltb, ◌==◌, Bool-cases, is_some, Bytes, bytes_eq, bytes_eq→eq, rsplit, count,
  lower, count-rsplit-none, rsplit-some,
}
use mailu.Mail.{returned, raised, ◌>>=◌, Idna, User, Db, at, bind_email, read_email, get_user}
use mailu.Mail.Bind.{IsIdna, bind_email-at, read_email-at}
use mailu.Mail.Resolve.{split_address}
use mailu.Mail.Postfix.{unsupported_address, mailbox_map, sender_rate, Settings}

-- the parts of an address with a mailbox's shape
pub record Supported (idna : Idna) (email : Bytes) : Type 0 where
  pub localpart : Bytes
  pub domain_name : Bytes
  pub key : Bytes
  pub parts : email ≡ at localpart domain_name
  pub local_plain : count b'@' localpart ≡ 0
  pub domain_plain : count b'@' domain_name ≡ 0
  pub encoded : idna.encode (lower domain_name) ≡ some key

pub is_some_inverse {ℓ} : {A : Type ℓ} (o : Option A) → is_some o ≡ true → (a : A) × (o ≡ some a)
is_some_inverse none h = cc
is_some_inverse (some a) h = (a, refl)

module _ (idna : Idna) where
  pub unsupported_inverse :
      (require_mailbox : Bool) (email : Bytes)
      → unsupported_address idna require_mailbox email ≡ false
      → (ltb 1 (count b'@' email) ≡ false)
        × ((require_mailbox && not (count b'@' email == 1)) ≡ false)
        × ((key : Bytes) × (idna.encode (lower (split_address email).1) ≡ some key))
  unfolding unsupported_address
  unsupported_inverse require_mailbox email h =
      (ground arith, ground arith, is_some_inverse _ (ground arith))

  Supported-parts :
      (email : Bytes) (o : Option (Bytes × Bytes))
      → rsplit b'@' email ≡ o
      → count b'@' email ≡ 1
      → (key : Bytes) → idna.encode (lower (split_address email).1) ≡ some key
      → Supported idna email
  unfolding split_address
  Supported-parts email none e one key h = absurd (ground (arith, count-rsplit-none b'@' email e))
  Supported-parts email (some (l, d)) e one key h =
      let (parts, counted, plain) = rsplit-some b'@' email l d e in
      record {
        localpart = l;
        domain_name = d;
        key = key;
        parts = parts;
        local_plain = omega arith;
        domain_plain = plain;
        encoded = ground arith;
      }

  mailbox-Supported :
      (email : Bytes) → unsupported_address idna true email ≡ false → Supported idna email
  mailbox-Supported email h =
      let (many, one, (key, encoded)) = unsupported_inverse true email h in
      Supported-parts email _ refl (ground arith) key encoded

  found_reads :
      IsIdna idna
      → (db : Db) (email : Bytes) (s : Supported idna email) (o : Option User)
      → first (λ (u : User). bytes_eq u.email (at (lower s.localpart) s.key)) db.users ≡ o
      → (o ≡ none)
        ⊎ ((u : User) × (o ≡ some u) × ((text : Bytes) × (read_email idna u.email ≡ returned text)))
  found_reads valid db email s none e = inl refl
  found_reads valid db email s (some u) e =
      let (d, decoded) = valid.decodes (lower s.domain_name) s.key s.encoded in
      inr (
        u,
        refl,
        (
          at (lower s.localpart) d,
          ap (read_email idna)
                (bytes_eq→eq u.email (at (lower s.localpart) s.key) (first-eq _ db.users e))
              ∙ read_email-at idna (lower s.localpart) s.key d
                  (valid.plain (lower s.domain_name) s.key s.encoded) decoded,
        ),
      )

  bind_email-Supported :
      (email : Bytes) (s : Supported idna email)
      → bind_email idna email ≡ returned (at (lower s.localpart) s.key)
  bind_email-Supported email s =
      ap (bind_email idna) s.parts
      ∙ bind_email-at idna s.localpart s.domain_name s.key s.local_plain s.domain_plain s.encoded

  -- A supported mailbox lookup binds, and the row that it finds reads back.
  get_user-answers :
      IsIdna idna
      → (db : Db) (email : Bytes) → Supported idna email
      → (get_user idna db email ≡ returned none)
        ⊎ ((u : User) × (get_user idna db email ≡ returned (some u))
            × ((text : Bytes) × (read_email idna u.email ≡ returned text)))
  unfolding get_user
  get_user-answers valid db email s =
      let step =
        ap (λ r. r >>= λ key. returned (first (λ (u : User). bytes_eq u.email key) db.users))
          (bind_email-Supported email s) in
      elim (found_reads valid db email s _ refl) [
        | inl e ↦ inl (step ∙ ap returned e)
        | inr (u, e, reads) ↦ inr (u, step ∙ ap returned e, reads)
      ]

  -- Whatever Postfix asks the mailbox map for, it gets an answer: a lookup that cannot be bound to the
  -- database is not found, and no exception leaves the handler. Domain names are assumed to decode
  -- once encoded, and to hold no `@` then.
  pub mailbox_map-ne-raised :
      IsIdna idna → (db : Db) (email : Bytes) → mailbox_map idna db email ≢ raised
  unfolding mailbox_map
  mailbox_map-ne-raised valid db email h = elim (Bool-cases (unsupported_address idna true email)) [
    | inl t ↦ ground arith
    | inr f ↦ elim (get_user-answers valid db email (mailbox-Supported email f)) [
      | inl e ↦ ground arith
      | inr (u, e, (text, reads)) ↦ ground arith
    ]
  ]

  -- The same of the rate limit of a sender, whatever the limiter says.
  pub sender_rate-ne-raised :
      IsIdna idna
      → (hit : Bytes → Bool) (settings : Settings) (db : Db) (sender : Bytes)
      → sender_rate idna hit settings db sender ≢ raised
  unfolding sender_rate
  sender_rate-ne-raised valid hit settings db sender h =
      elim (Bool-cases (unsupported_address idna true sender)) [
        | inl t ↦ ground arith
        | inr f ↦ elim (get_user-answers valid db sender (mailbox-Supported sender f)) [
          | inl e ↦ ground arith
          | inr (u, e, (text, reads)) ↦ ground arith
        ]
      ]
