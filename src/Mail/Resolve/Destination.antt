-- ===== src/Mail/Resolve/Destination.antt =====
-- Where `resolve_destination` sends a message.
use mathlib.Core.List.{Memᴰ}
use mathlib.Core.Option
use mailu.Prelude.{
  first, first-mem, ◌≡◌, refl, ap, ◌∙◌, Bool, true, false, ◌&&◌, Option, none, some, List, [], ◌∷◌,
  ◌++◌, map, arith, if◌then◌else◌, is_some, length, drop, all, Bytes, bytes_eq, rsplit, count,
  lower, rsplit-some,
}
use mailu.Mail.{
  returned, ◌>>=◌, Idna, User, Alias, Db, at, required, bind_domain, get_user, bind_total, Gives,
  Gives-bind, Gives-if,
}
use mailu.Mail.Bind.{bind_email-at, rsplit-at}
use mailu.Mail.Columns.{comma_read}
use mailu.Mail.Resolve.{
  strip_detail, append_detail, mailbox_destination, find_mailbox, destinations, resolve_alias,
  stripped_destination, alias_destination, resolve_destination,
}
use mailu.Mail.Resolve.Aliases.{resolve_alias-Resolved}

-- `idna.encode` accepts the domain behind the last `@`
unfoldable pub encodes : Idna → Bytes → Bool
encodes idna address = elim (rsplit b'@' address) [
  | none ↦ false
  | some (l, d) ↦ is_some (idna.encode d)
]

pub record Deliverable (idna : Idna) (db : Db) : Type 0 where
  pub forwards :
      (u : User) → Memᴰ u db.users → all (encodes idna) (comma_read u.forward_destination) ≡ true
  pub redirects : (a : Alias) → Memᴰ a db.aliases → all (encodes idna) (destinations a) ≡ true

-- an address that can be looked up, and whose domain is encoded as it was typed
pub record IsLookup (idna : Idna) (localpart : Bytes) (domain_name : Bytes) : Type 0 where
  pub local_plain : count b'@' localpart ≡ 0
  pub domain_plain : count b'@' domain_name ≡ 0
  pub key : Bytes
  pub bound : idna.encode (lower domain_name) ≡ some key
  pub typed : is_some (idna.encode domain_name) ≡ true

strip_detail-plain :
    (delims l s : Bytes) → count b'@' l ≡ 0 → strip_detail delims l ≡ some s → count b'@' s ≡ 0
unfolding strip_detail count
strip_detail-plain delims [] s h e = cc
strip_detail-plain delims (c ∷ cs) [] h e = refl
strip_detail-plain delims (c ∷ cs) (x ∷ s) h e = ground (arith, strip_detail-plain delims cs s)

all-append {ℓ} :
    {A : Type ℓ} (p : A → Bool) (xs ys : List A) → all p (xs ++ ys) ≡ (all p xs && all p ys)
all-append p [] ys = refl
all-append p (x ∷ xs) ys = ground (arith, all-append p xs ys)

all-map {ℓ} :
    {A : Type ℓ} (p : A → Bool) (f : A → A) (xs : List A)
    → ((x : A) → p x ≡ true → p (f x) ≡ true)
    → all p xs ≡ true
    → all p (map f xs) ≡ true
all-map p f [] g h = refl
all-map p f (x ∷ xs) g h = ground (arith, g x, all-map p f xs g)

module _ (idna : Idna) where
  encodes-at : (l d : Bytes) → count b'@' d ≡ 0 → encodes idna (at l d) ≡ is_some (idna.encode d)
  unfolding encodes
  encodes-at l d h = ground (arith, rsplit-at l d)

  encodes-detail :
      (detail address : Bytes) (o : Option (Bytes × Bytes))
      → rsplit b'@' address ≡ o
      → encodes idna address ≡ true
      → encodes idna (elim o [ none ↦ address | some (l, d) ↦ at (l ++ detail) d ]) ≡ true
  unfolding encodes
  encodes-detail detail address none e h = ground arith
  encodes-detail detail address (some (l, d)) e h =
      let (parts, counted, plain) = rsplit-some b'@' address l d e in
      ground (arith, rsplit-at (l ++ detail) d plain)

  encodes-append_detail :
      (detail address : Bytes)
      → encodes idna address ≡ true
      → encodes idna (append_detail detail address) ≡ true
  unfolding append_detail
  encodes-append_detail [] address h = h
  encodes-append_detail (c ∷ detail) address h = encodes-detail (c ∷ detail) address _ refl h

  mailbox_destination-encodes :
      (ignore : Bool) (email : Bytes) (u : User)
      → all (encodes idna) (comma_read u.forward_destination) ≡ true
      → encodes idna email ≡ true
      → all (encodes idna) (mailbox_destination ignore email u) ≡ true
  unfolding mailbox_destination
  mailbox_destination-encodes ignore email u h e =
      ground (arith, all-append (encodes idna) (comma_read u.forward_destination) (email ∷ []))

-- the mailbox of a lookup, when there is one, is in the table
abbrev Stored : Db → Option User → Type 0
Stored db o = (u : User) → o ≡ some u → Memᴰ u db.users

abbrev pub Encoded : Idna → Option (List Bytes) → Type 0
Encoded idna o = (l : List Bytes) → o ≡ some l → all (encodes idna) l ≡ true

module _ (idna : Idna) (db : Db) (localpart domain_name : Bytes)
    (v : IsLookup idna localpart domain_name) where
  get_user-Gives :
      (l : Bytes) → count b'@' l ≡ 0 → Gives (Stored db) (get_user idna db (at l domain_name))
  unfolding get_user
  get_user-Gives l plain = (
    first (λ (u : User). bytes_eq u.email (at (lower l) v.key)) db.users,
    ap (λ r. r >>= λ key. returned (first (λ (u : User). bytes_eq u.email key) db.users))
        (bind_email-at idna l domain_name v.key plain v.domain_plain v.bound),
    λ u e. first-mem _ db.users e,
  )

  Stored-none : Stored db none
  Stored-none u e = cc

  second_mailbox :
      (stripped : Option Bytes)
      → ((s : Bytes) → stripped ≡ some s → count b'@' s ≡ 0)
      → (o : Option User) → Stored db o
      → Gives (Stored db) (elim o [
        | some u ↦ returned (some u)
        | none ↦ elim stripped [
          | none ↦ returned none
          | some [] ↦ returned none
          | some (c ∷ cs) ↦ get_user idna db (at (c ∷ cs) domain_name)
        ]
      ])
  second_mailbox stripped plain (some u) s = (some u, refl, s)
  second_mailbox none plain none s = (none, refl, s)
  second_mailbox (some []) plain none s = (none, refl, s)
  second_mailbox (some (c ∷ cs)) plain none s = get_user-Gives (c ∷ cs) (plain (c ∷ cs) refl)

  find_mailbox-Gives :
      (stripped : Option Bytes)
      → ((s : Bytes) → stripped ≡ some s → count b'@' s ≡ 0)
      → Gives (Stored db) (find_mailbox idna db localpart stripped domain_name)
  unfolding find_mailbox
  find_mailbox-Gives stripped plain =
      Gives-bind _ _ (get_user-Gives localpart v.local_plain) (second_mailbox stripped plain)

  module _ (like : Bytes → Bytes → Bool) (valid : Deliverable idna db) where
    Redirected : Option Alias → Type 0
    Redirected o = (a : Alias) → o ≡ some a → all (encodes idna) (destinations a) ≡ true

    resolve_alias-total :
        (l : Option Bytes)
        → (o : Option Alias) × (resolve_alias idna like db l domain_name ≡ returned o)
    unfolding resolve_alias bind_domain
    resolve_alias-total l = bind_total _ _ (ap required v.bound)

    resolve_alias-Gives :
        (l : Option Bytes) → Gives Redirected (resolve_alias idna like db l domain_name)
    unfolding Redirected
    resolve_alias-Gives l =
        let (o, e) = resolve_alias-total l in
        (
          o,
          e,
          λ a h.
              valid.redirects a
                (resolve_alias-Resolved idna like db l domain_name a (e ∙ ap returned h)).stored,
        )

    Encoded-some :
        (l : List Bytes) → all (encodes idna) l ≡ true → Gives (Encoded idna) (returned (some l))
    Encoded-some l h = (some l, refl, λ k e. ground arith)

    Encoded-destinations :
        (o : Option Alias) → Redirected o → Encoded idna (Option.map destinations o)
    unfolding Redirected
    Encoded-destinations none r l e = cc
    Encoded-destinations (some a) r l e = ground (arith, r a refl)

    detailed :
        (l : Bytes) (stripped : Option Bytes) (o found : Option Alias)
        → Redirected o
        → Redirected found
        → Gives (Encoded idna) (elim found [
          | none ↦ returned (Option.map destinations o)
          | some a ↦
              if a.wildcard
              then returned (some (destinations a))
              else let detail = drop (elim stripped [ none ↦ 0 | some s ↦ length s ]) l in
                returned (some (map (append_detail detail) (destinations a)))
        ])
    unfolding Redirected
    detailed l stripped o none r s = (_, refl, Encoded-destinations o r)
    detailed l stripped o (some a) r s = Gives-if a.wildcard (Encoded-some _ (s a refl)) (
        Encoded-some _
          (all-map (encodes idna) _ (destinations a) (encodes-append_detail idna _) (s a refl)))

    stripped_destination-Gives :
        (l : Bytes) (stripped : Option Bytes) (o : Option Alias)
        → Redirected o
        → Gives (Encoded idna) (stripped_destination idna like db l stripped domain_name o)
    unfolding stripped_destination
    stripped_destination-Gives l stripped o r =
        Gives-bind _ _ (resolve_alias-Gives stripped) (λ found s. detailed l stripped o found r s)

    pure_destination :
        (stripped : Option Bytes) (o : Option Alias)
        → Redirected o
        → Gives (Encoded idna) (elim o [
          | none ↦ stripped_destination idna like db localpart stripped domain_name none
          | some a ↦
              if a.wildcard
              then stripped_destination idna like db localpart stripped domain_name (some a)
              else returned (some (destinations a))
        ])
    unfolding Redirected
    pure_destination stripped none r = stripped_destination-Gives localpart stripped none r
    pure_destination stripped (some a) r =
        Gives-if a.wildcard (stripped_destination-Gives localpart stripped (some a) r)
          (Encoded-some _ (r a refl))

    mailbox_or_alias :
        (delims : Bytes) (ignore : Bool) (o : Option User)
        → Stored db o
        → Gives (Encoded idna) (elim o [
          | some u ↦ returned (some (mailbox_destination ignore (at localpart domain_name) u))
          | none ↦
              alias_destination idna like db localpart (strip_detail delims localpart) domain_name
        ])
    unfolding alias_destination
    mailbox_or_alias delims ignore none s =
        Gives-bind _ _ (resolve_alias-Gives (some localpart))
          (pure_destination (strip_detail delims localpart))
    mailbox_or_alias delims ignore (some u) s = Encoded-some _ (
        mailbox_destination-encodes idna ignore (at localpart domain_name) u
          (valid.forwards u (s u refl))
          (encodes-at idna localpart domain_name v.domain_plain ∙ v.typed))

    -- A supported address has destinations or none, and the domain of each can be encoded, when those of
    -- the tables can and the domain was typed so that it can.
    pub resolve_destination-Gives :
        (delims : Bytes) (ignore : Bool)
        → Gives
            (Encoded idna)
            (resolve_destination idna like delims db ignore localpart domain_name)
    unfolding resolve_destination
    resolve_destination-Gives delims ignore =
        Gives-bind _ _
          (find_mailbox-Gives (strip_detail delims localpart)
            (λ s e. strip_detail-plain delims localpart s v.local_plain e))
          (mailbox_or_alias delims ignore)
