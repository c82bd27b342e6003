-- ===== src/Mail.antt =====
-- core/admin/mailu/models.py: the tables that decide where a message goes, and the column types that
-- bind a Python value to the database. The `idna` package and the LIKE of the database are arguments.
pub mod Columns
pub mod Resolve
pub mod Postfix
pub mod Bind
mod Tests
use mailu.Prelude.{
  first, ◌≡◌, refl, sym, ap, subst, Bool, true, false, Option, none, some, List, [], ◌∷◌, ◌++◌,
  if◌then◌else◌, Bytes, bytes_eq, has, rsplit, lower,
}

-- an expression that is left by an exception, or returns
pub data Result {ℓ} (A : Type ℓ) : Type ℓ where
  raised : Result A
  returned : A → Result A

infixl 6 ◌>>=◌
abbrev pub ◌>>=◌ {ℓ ℓ'} : {A : Type ℓ} {B : Type ℓ'} → Result A → (A → Result B) → Result B
raised >>= next = raised
returned a >>= next = next a

-- a chain that returns has returned at each step
pub bind_inverse {ℓ ℓ'} :
    {A : Type ℓ} {B : Type ℓ'} (step : Result A) (next : A → Result B) {b : B}
    → (step >>= next) ≡ returned b
    → (a : A) × (step ≡ returned a) × (next a ≡ returned b)
bind_inverse raised next e = cc
bind_inverse (returned a) next e = (a, refl, e)

pub bind_total {ℓ κ} :
    {A : Type ℓ} {B : Type κ} (m : Result A) (f : A → B) {a : A}
    → m ≡ returned a
    → (b : B) × ((m >>= λ x. returned (f x)) ≡ returned b)
bind_total m f {a} e = (f a, ap (λ r. r >>= λ x. returned (f x)) e)

-- a result that is returned, and is as promised
abbrev pub Gives {ℓ κ} : {A : Type ℓ} → (A → Type κ) → Result A → Type (ℓ ⊔ κ)
Gives {A} P r = (a : A) × (r ≡ returned a) × P a

pub Gives-bind {ℓ κ ℓ' κ'} :
    {A : Type ℓ} {B : Type κ} {P : A → Type ℓ'} {Q : B → Type κ'} (m : Result A) (f : A → Result B)
    → Gives P m
    → ((a : A) → P a → Gives Q (f a))
    → Gives Q (m >>= f)
Gives-bind {Q} m f (a, e, h) k = subst (λ r. Gives Q (r >>= f)) (sym e) (k a h)

pub Gives-if {ℓ κ} :
    {A : Type ℓ} {P : A → Type κ} (b : Bool) {x y : Result A}
    → Gives P x
    → Gives P y
    → Gives P (if b then x else y)
Gives-if true g h = g
Gives-if false g h = h

-- `idna.encode(…).decode('ascii')` and `idna.decode`; none is an `IDNAError`
pub record Idna : Type 0 where
  pub encode : Bytes → Option Bytes
  pub decode : Bytes → Option Bytes

-- Rows hold what the columns hold: names in their ASCII form.
pub record User : Type 0 where
  pub email : Bytes
  pub domain_name : Bytes
  pub enabled : Bool
  pub allow_spoofing : Bool
  pub forward_enabled : Bool
  pub forward_destination : Bytes
  pub forward_keep : Bool

pub record Alias : Type 0 where
  pub localpart : Bytes
  pub domain_name : Bytes
  pub wildcard : Bool
  pub destination : Bytes
  pub owner_email : Option Bytes
  pub disabled : Bool

pub record Alternative : Type 0 where
  pub name : Bytes
  pub domain_name : Bytes

pub record Relay : Type 0 where
  pub name : Bytes
  pub smtp : Option Bytes

pub record Db : Type 0 where
  pub domains : List Bytes
  pub alternatives : List Alternative
  pub relays : List Relay
  pub users : List User
  pub aliases : List Alias

abbrev pub at : Bytes → Bytes → Bytes
at localpart domain_name = localpart ++ b'@' ∷ domain_name

abbrev pub required : Option Bytes → Result Bytes
required none = raised
required (some a) = returned a

module _ (idna : Idna) where
  -- `IdnaDomain.process_bind_param` and `process_result_value`
  unfoldable pub bind_domain : Bytes → Result Bytes
  bind_domain value = required (idna.encode (lower value))

  unfoldable pub read_domain : Bytes → Result Bytes
  read_domain value = required (idna.decode value)

  -- the local part with the domain in its other form, when that exists
  unfoldable pub convert_email : (Bytes → Option Bytes) → Bytes × Bytes → Result Bytes
  convert_email convert (localpart, domain_name) = do
    domain ← required (convert domain_name)
    returned (at localpart domain)

  -- `IdnaEmail.process_bind_param` and `process_result_value`: without an `@` there is no pair
  unfoldable pub bind_email : Bytes → Result Bytes
  unfolding convert_email
  bind_email value = elim (rsplit b'@' (lower value)) [
    | none ↦ raised
    | some (localpart, domain_name) ↦
        if has b'@' localpart then raised else convert_email idna.encode (localpart, domain_name)
  ]

  unfoldable pub read_email : Bytes → Result Bytes
  unfolding convert_email
  read_email value = elim (rsplit b'@' value) [
    | none ↦ raised
    | some parts ↦ convert_email idna.decode parts
  ]

  -- `db.session.get(User, email)`, and of the other tables, whose key is a name
  unfoldable pub get_user : Db → Bytes → Result (Option User)
  get_user db email = do
    key ← bind_email email
    returned (first (λ (u : User). bytes_eq u.email key) db.users)

  unfoldable pub get_alternative : Db → Bytes → Result (Option Alternative)
  get_alternative db name = do
    key ← bind_domain name
    returned (first (λ (a : Alternative). bytes_eq a.name key) db.alternatives)

  unfoldable pub get_relay : Db → Bytes → Result (Option Relay)
  get_relay db name = do
    key ← bind_domain name
    returned (first (λ (r : Relay). bytes_eq r.name key) db.relays)

  unfoldable pub get_domain : Db → Bytes → Result (Option Bytes)
  get_domain db name = do key ← bind_domain name; returned (first (λ d. bytes_eq d key) db.domains)

  unfoldable pub read_all : List Bytes → Result (List Bytes)
  read_all [] = returned []
  read_all (email ∷ emails) = do
    first_email ← read_email email
    rest ← read_all emails
    returned (first_email ∷ rest)
