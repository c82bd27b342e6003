-- ===== src/OAuth/Token/RoundTrip.antt =====
-- A derived token parses back, and an accepted one carries the server's MAC.
use mathlib.Core.Option
use mailu.Prelude.{
  ℕ, ◌+◌, ◌-◌, ◌*◌, ◌<◌, ◌≡◌, refl, ap, ◌∙◌, ◌⊎◌, inl, inr, Bool, true, false, Option, none, some,
  List, [], ◌∷◌, ◌++◌, append_assoc, arith, length, all, Bytes, codes, bytes_eq, bytes_eq_refl,
  bytes_eq→eq, decimal, is_digit, read_digits, read_digits-decimal, decimal-IsDigits, decimal-pos,
  split_on, has, split_on-clean, split_on-append,
}
use mailu.OAuth.Token.{
  Kind, access, refresh, kind_text, same_kind, payload, derive, parse, is_grant_id, python_int,
  int_tail, dot, id_char, read_kind, parse_parts, check, accept,
}

pub has-dot_digits : (xs : Bytes) → all is_digit xs ≡ true → has dot xs ≡ false
unfolding has is_digit
has-dot_digits [] h = refl
has-dot_digits (x ∷ xs) h = ground (arith, has-dot_digits xs)

has-dot_id : (xs : Bytes) → all id_char xs ≡ true → has dot xs ≡ false
unfolding has is_digit
has-dot_id [] h = refl
has-dot_id (x ∷ xs) h = ground (arith, has-dot_id xs)

int_tail-digits : (v : ℕ) (xs : Bytes) → all is_digit xs ≡ true → int_tail v xs ≡ read_digits v xs
unfolding int_tail read_digits
int_tail-digits v [] h = refl
int_tail-digits v (x ∷ []) h = ground arith
int_tail-digits v (x ∷ y ∷ xs) h = ground (arith, int_tail-digits (v * 10 + (x - 48)) (y ∷ xs))

-- what `int` reads of digits
python_int-digits :
    (x : ℕ) (xs : Bytes)
    → all is_digit (x ∷ xs) ≡ true
    → python_int (x ∷ xs) ≡ Option.map (λ (n : ℕ). (false, n)) (read_digits 0 (x ∷ xs))
unfolding python_int read_digits is_digit
python_int-digits x xs h = ground (arith, int_tail-digits (x - 48) xs)

python_int-of :
    (xs : Bytes) (n : ℕ)
    → all is_digit xs ≡ true
    → 0 < length xs
    → read_digits 0 xs ≡ some n
    → python_int xs ≡ some (false, n)
python_int-of [] n h k e = absurd (omega arith)
python_int-of (x ∷ xs) n h k e =
    python_int-digits x xs h ∙ ap (Option.map (λ (n : ℕ). (false, n))) e

python_int-decimal : (n : ℕ) → python_int (decimal n) ≡ some (false, n)
python_int-decimal n =
    python_int-of (decimal n) n (decimal-IsDigits n) (decimal-pos n) (read_digits-decimal n)

kind-dot : (k : Kind) → has dot (kind_text k) ≡ false
unfolding has
kind-dot access = refl
kind-dot refresh = refl

read_kind-kind_text : (k : Kind) → read_kind (kind_text k) ≡ some k
unfolding read_kind bytes_eq
read_kind-kind_text access = refl
read_kind-kind_text refresh = refl

same_kind_refl : (k : Kind) → same_kind k k ≡ true
same_kind_refl access = refl
same_kind_refl refresh = refl

split_five :
    (a b c d e : Bytes)
    → has dot a ≡ false
    → has dot b ≡ false
    → has dot c ≡ false
    → has dot d ≡ false
    → has dot e ≡ false
    → split_on dot (a ++ dot ∷ (b ++ dot ∷ (c ++ dot ∷ (d ++ dot ∷ e)))) ≡ a ∷ b ∷ c ∷ d ∷ e ∷ []
split_five a b c d e ha hb hc hd he =
    split_on-append dot a _ ha
    ∙ ap (λ r. a ∷ r)
        (split_on-append dot b _ hb
          ∙ ap (λ r. b ∷ r)
              (split_on-append dot c _ hc
                ∙ ap (λ r. c ∷ r)
                    (split_on-append dot d e hd ∙ ap (λ r. d ∷ r) (split_on-clean dot e he))))

is_grant_id-all : (grant_id : Bytes) → is_grant_id grant_id ≡ true → all id_char grant_id ≡ true
unfolding is_grant_id
is_grant_id-all grant_id h = ground arith

module _ (mac : Bytes → Bytes) (k : Kind) (grant_id : Bytes) (n : ℕ)
    (fits : is_grant_id grant_id ≡ true) (hex : has dot (mac (payload k grant_id n)) ≡ false) where
  derive-parts :
      split_on dot (derive mac k grant_id n)
      ≡ codes "v1" ∷ kind_text k ∷ grant_id ∷ decimal n ∷ mac (payload k grant_id n) ∷ []
  unfolding derive
  derive-parts =
      ap (split_on dot) (
        ap (λ r. codes "v1." ++ r)
          (append_assoc (kind_text k) (dot ∷ (grant_id ++ dot ∷ decimal n)) _
            ∙ ap (λ r. kind_text k ++ dot ∷ r) (append_assoc grant_id (dot ∷ decimal n) _)))
      ∙ split_five (codes "v1") (kind_text k) grant_id (decimal n) (mac (payload k grant_id n))
          (unfold has in refl) (kind-dot k) (has-dot_id grant_id (is_grant_id-all grant_id fits))
          (has-dot_digits (decimal n) (decimal-IsDigits n)) hex

  accept-derived :
      (expected : Option Kind)
      → (expected ≡ none) ⊎ (expected ≡ some k)
      → accept mac expected (codes "v1") k grant_id (false, n) (mac (payload k grant_id n))
        ≡ some (k, grant_id, n)
  unfolding accept bytes_eq
  accept-derived expected (inl e) =
      rw e (ground (arith, bytes_eq_refl (mac (payload k grant_id n))))
  accept-derived expected (inr e) =
      rw e (ground (arith, bytes_eq_refl (mac (payload k grant_id n)), same_kind_refl k))

  -- A token that the server derived is parsed back to what it was derived from, whether its kind or
  -- any kind is asked for. The grant's identifier has the form of `token_urlsafe(16)`, and the MAC,
  -- in hexadecimal, holds no dot.
  pub parse-derive :
      (expected : Option Kind)
      → (expected ≡ none) ⊎ (expected ≡ some k)
      → parse mac expected (derive mac k grant_id n) ≡ some (k, grant_id, n)
  unfolding parse
  parse-derive expected h =
      ap (parse_parts mac expected) derive-parts
      ∙ unfold parse_parts check in
        rw (read_kind-kind_text k, python_int-decimal n) (accept-derived expected h)

-- Five parts, of which the middle three say what the last is the MAC of.
pub data Signed (mac : Bytes → Bytes) (k : Kind) (grant_id : Bytes) (n : ℕ)
    : List Bytes → Type 0 where
  signed :
      (raw : Bytes) {parts : List Bytes}
      → parts ≡ codes "v1" ∷ kind_text k ∷ grant_id ∷ raw ∷ mac (payload k grant_id n) ∷ []
      → Signed mac k grant_id n parts

read_kind→text : (text : Bytes) (k : Kind) → read_kind text ≡ some k → text ≡ kind_text k
unfolding read_kind
read_kind→text text access h =
    ground (arith, bytes_eq→eq text (codes "access"), bytes_eq→eq text (codes "refresh"))
read_kind→text text refresh h =
    ground (arith, bytes_eq→eq text (codes "access"), bytes_eq→eq text (codes "refresh"))

module _ (mac : Bytes → Bytes) (expected : Option Kind) (k : Kind) (grant_id : Bytes) (n : ℕ) where
  accept-Signed :
      (version : Bytes) (kind : Kind) (i : Bytes) (generation : Bool × ℕ) (raw supplied : Bytes)
      → accept mac expected version kind i generation supplied ≡ some (k, grant_id, n)
      → Signed mac k grant_id n (version ∷ kind_text kind ∷ i ∷ raw ∷ supplied ∷ [])
  unfolding accept
  accept-Signed version kind i (minus, m) raw supplied h = signed raw (
      ground
        (arith, bytes_eq→eq version (codes "v1"), bytes_eq→eq supplied (mac (payload kind i m))))

  check-Signed :
      (version kind i raw supplied : Bytes) (o : Option Kind) (g : Option (Bool × ℕ))
      → read_kind kind ≡ o
      → check mac expected version o i g supplied ≡ some (k, grant_id, n)
      → Signed mac k grant_id n (version ∷ kind ∷ i ∷ raw ∷ supplied ∷ [])
  unfolding check
  check-Signed version kind i raw supplied none g r h = cc
  check-Signed version kind i raw supplied (some c) none r h = cc
  check-Signed version kind i raw supplied (some c) (some m) r h =
      rw (read_kind→text kind c r) (accept-Signed version c i m raw supplied h)

  parts-Signed :
      (parts : List Bytes)
      → parse_parts mac expected parts ≡ some (k, grant_id, n)
      → Signed mac k grant_id n parts
  unfolding parse_parts
  parts-Signed (v ∷ t ∷ i ∷ raw ∷ m ∷ []) h =
      check-Signed v t i raw m (read_kind t) (python_int raw) refl h
  parts-Signed _ h = cc

  -- Whatever text is presented, a token that is accepted as kind, grant and generation carries the
  -- MAC, under the server's key, of just that kind, grant and generation.
  pub parse-Signed :
      (token : Bytes)
      → parse mac expected token ≡ some (k, grant_id, n)
      → Signed mac k grant_id n (split_on dot token)
  unfolding parse
  parse-Signed token h = parts-Signed (split_on dot token) h

same_kind→eq : (j k : Kind) → same_kind j k ≡ true → j ≡ k
same_kind→eq access access h = refl
same_kind→eq access refresh h = cc
same_kind→eq refresh access h = cc
same_kind→eq refresh refresh h = refl

module _ (mac : Bytes → Bytes) (expected k : Kind) (grant_id : Bytes) (n : ℕ) where
  accept_kind :
      (version : Bytes) (kind : Kind) (i : Bytes) (generation : Bool × ℕ) (supplied : Bytes)
      → accept mac (some expected) version kind i generation supplied ≡ some (k, grant_id, n)
      → k ≡ expected
  unfolding accept
  accept_kind version kind i (minus, m) supplied h = ground (arith, same_kind→eq kind expected)

  check_kind :
      (version i supplied : Bytes) (o : Option Kind) (g : Option (Bool × ℕ))
      → check mac (some expected) version o i g supplied ≡ some (k, grant_id, n)
      → k ≡ expected
  unfolding check
  check_kind version i supplied none g h = cc
  check_kind version i supplied (some c) none h = cc
  check_kind version i supplied (some c) (some m) h = accept_kind version c i m supplied h

  parts_kind :
      (parts : List Bytes)
      → parse_parts mac (some expected) parts ≡ some (k, grant_id, n)
      → k ≡ expected
  unfolding parse_parts
  parts_kind (v ∷ t ∷ i ∷ raw ∷ m ∷ []) h = check_kind v i m (read_kind t) (python_int raw) h
  parts_kind _ h = cc

  -- Where a kind is asked for, a token of the other kind is refused.
  pub parse_kind :
      (token : Bytes) → parse mac (some expected) token ≡ some (k, grant_id, n) → k ≡ expected
  unfolding parse
  parse_kind token h = parts_kind (split_on dot token) h
