-- ===== src/OAuth/Token.antt =====
-- core/admin/mailu/oauth2.py: `_derive_mail_token` and `_parse_mail_token`.
pub mod RoundTrip
mod Tests
use mathlib.Core.Option
use mailu.Prelude.{
  ℕ, ◌+◌, ◌-◌, ◌*◌, Bool, true, false, not, ◌&&◌, ◌||◌, Option, none, some, List, [], ◌∷◌, ◌++◌,
  map, leb, ◌==◌, if◌then◌else◌, length, all, Bytes, codes, bytes_eq, decimal, is_digit, split_on,
  is_space,
}

pub data Kind : Type 0 where
  access refresh : Kind

abbrev pub kind_text : Kind → Bytes
kind_text access = codes "access"
kind_text refresh = codes "refresh"

abbrev pub same_kind : Kind → Kind → Bool
same_kind access access = true
same_kind refresh refresh = true
same_kind _ _ = false

abbrev pub dot : ℕ
dot = b'.'

-- `int(text)`: white space round it, a sign, and single underscores between the digits; the result
-- is the sign (true for a minus) and the absolute value
abbrev strip_left : Bytes → Bytes
strip_left [] = []
strip_left (x ∷ xs) = let rest = strip_left xs in if is_space x then rest else x ∷ xs

all_space : Bytes → Bool
all_space [] = true
all_space (x ∷ xs) = is_space x && all_space xs

int_tail : ℕ → Bytes → Option ℕ
int_tail v [] = some v
int_tail v (x ∷ []) =
    if is_digit x then some (v * 10 + (x - 48)) else if is_space x then some v else none
int_tail v (x ∷ y ∷ xs) =
    let more = int_tail (v * 10 + (x - 48)) (y ∷ xs) in
    let grouped = int_tail (v * 10 + (y - 48)) xs in
    if is_digit x
    then more
    else if x == b'_' && is_digit y
    then grouped
    else if is_space x && all_space (y ∷ xs)
    then some v
    else none

int_digits : Bytes → Option ℕ
unfolding int_tail all_space
int_digits [] = none
int_digits (x ∷ xs) = if is_digit x then int_tail (x - 48) xs else none

int_sign : Bytes → Option (Bool × ℕ)
unfolding int_digits
int_sign [] = none
int_sign (x ∷ xs) =
    if x == b'-'
    then Option.map (λ (n : ℕ). (true, n)) (int_digits xs)
    else if x == b'+'
    then Option.map (λ (n : ℕ). (false, n)) (int_digits xs)
    else Option.map (λ (n : ℕ). (false, n)) (int_digits (x ∷ xs))

python_int : Bytes → Option (Bool × ℕ)
unfolding int_sign
python_int text = int_sign (strip_left text)

abbrev id_char : ℕ → Bool
id_char c =
    (leb b'A' c && leb c b'Z') || (leb b'a' c && leb c b'z') || is_digit c || c == b'_' || c == b'-'

-- `[A-Za-z0-9_-]{22}`, the whole of it
unfoldable pub is_grant_id : Bytes → Bool
is_grant_id text = length text == 22 && all id_char text

abbrev pub payload : Kind → Bytes → ℕ → Bytes
payload kind grant_id generation =
    codes "v1." ++ (kind_text kind ++ dot ∷ (grant_id ++ dot ∷ decimal generation))

-- `kind not in ('access', 'refresh')`
read_kind : Bytes → Option Kind
read_kind text =
    if bytes_eq text (codes "access")
    then some access
    else if bytes_eq text (codes "refresh")
    then some refresh
    else none

module _ (mac : Bytes → Bytes) where
  unfoldable pub derive : Kind → Bytes → ℕ → Bytes
  derive kind grant_id generation =
      payload kind grant_id generation ++ dot ∷ mac (payload kind grant_id generation)

  -- the checks behind the split; `expected_kind` none asks for either kind
  accept : Option Kind → Bytes → Kind → Bytes → Bool × ℕ → Bytes → Option (Kind × Bytes × ℕ)
  accept expected_kind version kind grant_id (minus, n) supplied =
      if not (bytes_eq version (codes "v1"))
        || not (is_grant_id grant_id)
        || (minus && not (n == 0))
      then none
      else if elim expected_kind [ none ↦ false | some k ↦ not (same_kind kind k) ]
      then none
      else if bytes_eq supplied (mac (payload kind grant_id n))
      then some (kind, grant_id, n)
      else none

  check :
      Option Kind
      → Bytes
      → Option Kind
      → Bytes
      → Option (Bool × ℕ)
      → Bytes
      → Option (Kind × Bytes × ℕ)
  unfolding accept
  check expected_kind version none grant_id generation supplied = none
  check expected_kind version (some kind) grant_id none supplied = none
  check expected_kind version (some kind) grant_id (some n) supplied =
      accept expected_kind version kind grant_id n supplied

  parse_parts : Option Kind → List Bytes → Option (Kind × Bytes × ℕ)
  unfolding check
  parse_parts expected_kind (version ∷ kind ∷ grant_id ∷ raw ∷ supplied ∷ []) =
      check expected_kind version (read_kind kind) grant_id (python_int raw) supplied
  parse_parts expected_kind _ = none

  pub parse : Option Kind → Bytes → Option (Kind × Bytes × ℕ)
  unfolding parse_parts
  parse expected_kind token = parse_parts expected_kind (split_on dot token)
