-- ===== src/Prelude/Text.antt =====
-- Bytes and texts as lists of code points, and the printing and reading of decimal numbers.
use Prim.Native.Nat.{ℕ, zero, suc, ◌+◌, ◌-◌, ◌*◌, ◌/◌, ◌%◌, ◌<◌, ◌≤◌}
use Prim.Native.Char.{code}
use Prim.Native.String.{String}
use mathlib.Core.Path.{◌≡◌, refl}
use mathlib.Core.Bool.{Bool, true, false, ◌&&◌}
use mathlib.Core.List.{List, [], ◌∷◌}
use mathlib.Core.Option.{Option, none, some}
use native.Mathlib.Omega.{arith}
use mailu.Prelude.Lists.{length, all}
use mailu.Prelude.Booleans.{ltb, leb, ◌==◌, if◌then◌else◌}

abbrev pub Bytes : Type 0
Bytes = List ℕ

-- the code points of a literal
abbrev pub codes : String → Bytes
codes String.[] = []
codes (String.◌∷◌ c s) = code c ∷ codes s

unfoldable pub bytes_eq : Bytes → Bytes → Bool
bytes_eq [] [] = true
bytes_eq [] (y ∷ ys) = false
bytes_eq (x ∷ xs) [] = false
bytes_eq (x ∷ xs) (y ∷ ys) = x == y && bytes_eq xs ys

pub bytes_eq_refl : (xs : Bytes) → bytes_eq xs xs ≡ true
unfolding bytes_eq
bytes_eq_refl [] = refl
bytes_eq_refl (x ∷ xs) = ground (arith, bytes_eq_refl xs)

pub bytes_eq→eq : (xs ys : Bytes) → bytes_eq xs ys ≡ true → xs ≡ ys
unfolding bytes_eq
bytes_eq→eq [] [] h = refl
bytes_eq→eq [] (y ∷ ys) h = cc
bytes_eq→eq (x ∷ xs) [] h = cc
bytes_eq→eq (x ∷ xs) (y ∷ ys) h = ground (arith, bytes_eq→eq xs ys)

-- `str(n)`: the digits of `n` in front of `acc`; a number below the fuel never exhausts it
print_digits : ℕ → ℕ → Bytes → Bytes
print_digits zero n acc = acc
print_digits (suc f) n acc =
    let more = print_digits f (n / 10) ((48 + n % 10) ∷ acc) in
    if ltb n 10 then (48 + n) ∷ acc else more

unfoldable pub decimal : ℕ → Bytes
unfolding print_digits
decimal n = print_digits (suc n) n []

unfoldable pub is_digit : ℕ → Bool
is_digit c = leb 48 c && leb c 57

-- `int(text, 10)` for a text of ASCII digits
unfoldable pub read_digits : ℕ → Bytes → Option ℕ
unfolding is_digit
read_digits v [] = some v
read_digits v (c ∷ cs) =
    let more = read_digits (v * 10 + (c - 48)) cs in if is_digit c then more else none

read_digits-print_digits :
    (f n : ℕ) (acc : Bytes) → n < f → read_digits 0 (print_digits f n acc) ≡ read_digits n acc
unfolding read_digits print_digits
read_digits-print_digits zero n acc h = absurd (omega arith)
read_digits-print_digits (suc f) n acc h =
    ground (arith, read_digits-print_digits f (n / 10) ((48 + n % 10) ∷ acc))

-- A printed number reads back.
pub read_digits-decimal : (n : ℕ) → read_digits 0 (decimal n) ≡ some n
unfolding decimal read_digits
read_digits-decimal n = read_digits-print_digits (suc n) n [] (omega arith)

print_digits-all :
    (f n : ℕ) (acc : Bytes) → all is_digit acc ≡ true → all is_digit (print_digits f n acc) ≡ true
unfolding print_digits is_digit
print_digits-all zero n acc h = h
print_digits-all (suc f) n acc h = ground (arith, print_digits-all f (n / 10) ((48 + n % 10) ∷ acc))

-- A printed number consists of digits.
pub decimal-IsDigits : (n : ℕ) → all is_digit (decimal n) ≡ true
unfolding decimal
decimal-IsDigits n = print_digits-all (suc n) n [] refl

print_digits-length : (f n : ℕ) (acc : Bytes) → length acc ≤ length (print_digits f n acc)
unfolding print_digits
print_digits-length zero n acc = omega arith
print_digits-length (suc f) n acc =
    ground (arith, print_digits-length f (n / 10) ((48 + n % 10) ∷ acc))

pub decimal-pos : (n : ℕ) → 0 < length (decimal n)
unfolding decimal print_digits
decimal-pos n = ground (arith, print_digits-length n (n / 10) ((48 + n % 10) ∷ []))
