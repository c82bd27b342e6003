-- ===== src/Prelude/Split.antt =====
-- `str.split(d)` for a separator of one character, and `str.split()`.
use Prim.Native.Nat.{ℕ, ◌+◌, ◌<◌}
use mathlib.Core.Path.{◌≡◌, refl}
use mathlib.Core.Bool.{Bool, false, ◌&&◌, ◌||◌}
use mathlib.Core.List.{List, [], ◌∷◌, ◌++◌}
use mathlib.Core.Option.{Option, none, some}
use native.Mathlib.Omega.{arith}
use mailu.Prelude.Booleans.{ltb, leb, ◌==◌, if◌then◌else◌}
use mailu.Prelude.Text.{Bytes, bytes_eq}

abbrev pub cons_head : ℕ → List Bytes → List Bytes
cons_head x [] = (x ∷ []) ∷ []
cons_head x (w ∷ ws) = (x ∷ w) ∷ ws

unfoldable pub split_on : ℕ → Bytes → List Bytes
split_on d [] = [] ∷ []
split_on d (x ∷ xs) = let rest = split_on d xs in if x == d then [] ∷ rest else cons_head x rest

-- `d in text`, for a character
unfoldable pub has : ℕ → Bytes → Bool
has d [] = false
has d (x ∷ xs) = x == d || has d xs

-- `item in items`, for texts
unfoldable pub member : Bytes → List Bytes → Bool
member x [] = false
member x (y ∷ ys) = bytes_eq y x || member x ys

-- the ASCII white space of `str.split()`, `str.strip()` and `int`
abbrev pub is_space : ℕ → Bool
is_space c = c == 32 || (leb 9 c && leb c 13) || (leb 28 c && leb c 31)

drop_empty : List Bytes → List Bytes
drop_empty [] = []
drop_empty ([] ∷ ws) = drop_empty ws
drop_empty ((x ∷ w) ∷ ws) = (x ∷ w) ∷ drop_empty ws

split_space : Bytes → List Bytes
split_space [] = [] ∷ []
split_space (x ∷ xs) =
    let rest = split_space xs in if is_space x then [] ∷ rest else cons_head x rest

-- `text.split()`: runs of white space separate, and bound no empty word
unfoldable pub words : Bytes → List Bytes
unfolding split_space drop_empty
words text = drop_empty (split_space text)

pub split_on-clean : (d : ℕ) (xs : Bytes) → has d xs ≡ false → split_on d xs ≡ xs ∷ []
unfolding split_on has
split_on-clean d [] h = refl
split_on-clean d (x ∷ xs) h = ground (arith, split_on-clean d xs)

-- The first separator ends the first part.
pub split_on-append :
    (d : ℕ) (xs ys : Bytes) → has d xs ≡ false → split_on d (xs ++ d ∷ ys) ≡ xs ∷ split_on d ys
unfolding split_on has
split_on-append d [] ys h = ground arith
split_on-append d (x ∷ xs) ys h = ground (arith, split_on-append d xs ys)

pub has-append : (d : ℕ) (xs ys : Bytes) → has d (xs ++ ys) ≡ (has d xs || has d ys)
unfolding has
has-append d [] ys = refl
has-append d (x ∷ xs) ys = ground (arith, has-append d xs ys)

-- `text.rsplit(d, 1)`: the parts round the last `d`, if there is one
unfoldable pub rsplit : ℕ → Bytes → Option (Bytes × Bytes)
rsplit d [] = none
rsplit d (x ∷ xs) = elim (rsplit d xs) [
  | none ↦ if x == d then some ([], xs) else none
  | some (left, right) ↦ some (x ∷ left, right)
]

-- `text.count(d)`, for a character
unfoldable pub count : ℕ → Bytes → ℕ
count d [] = 0
count d (x ∷ xs) = (if x == d then 1 else 0) + count d xs

-- `text.lower()`, on ASCII letters
abbrev pub lower_char : ℕ → ℕ
lower_char c = if leb b'A' c && leb c b'Z' then c + 32 else c

unfoldable pub lower : Bytes → Bytes
lower [] = []
lower (x ∷ xs) = lower_char x ∷ lower xs

pub rsplit-none : (d : ℕ) (xs : Bytes) → count d xs ≡ 0 → rsplit d xs ≡ none
unfolding rsplit count
rsplit-none d [] h = refl
rsplit-none d (x ∷ xs) h = ground (arith, rsplit-none d xs)

pub has-count : (d : ℕ) (xs : Bytes) → has d xs ≡ ltb 0 (count d xs)
unfolding has count
has-count d [] = refl
has-count d (x ∷ xs) = ground (arith, has-count d xs)

pub count-rsplit-none : (d : ℕ) (xs : Bytes) → rsplit d xs ≡ none → count d xs ≡ 0
unfolding rsplit count
count-rsplit-none d [] h = refl
count-rsplit-none d (x ∷ xs) h = ground (arith, count-rsplit-none d xs)

pub count-append : (d : ℕ) (xs ys : Bytes) → count d (xs ++ ys) ≡ count d xs + count d ys
unfolding count
count-append d [] ys = omega arith
count-append d (x ∷ xs) ys = ground (arith, count-append d xs ys)

pub rsplit-append :
    (d : ℕ) (xs ys : Bytes) → count d ys ≡ 0 → rsplit d (xs ++ d ∷ ys) ≡ some (xs, ys)
unfolding rsplit
rsplit-append d [] ys h = ground (arith, rsplit-none d ys)
rsplit-append d (x ∷ xs) ys h = rw (rsplit-append d xs ys h)

-- lowering moves no character that is not a letter
pub count-lower : (d : ℕ) (xs : Bytes) → d < 65 → count d (lower xs) ≡ count d xs
unfolding count lower
count-lower d [] h = refl
count-lower d (x ∷ xs) h = ground (arith, count-lower d xs)

-- The last separator is left out, and the right part holds none.
pub rsplit-some :
    (d : ℕ) (xs left right : Bytes)
    → rsplit d xs ≡ some (left, right)
    → (xs ≡ left ++ d ∷ right) × (count d xs ≡ count d left + 1) × (count d right ≡ 0)
unfolding rsplit count
rsplit-some d [] left right h = cc
rsplit-some d (x ∷ xs) [] right h = ground (arith, count-rsplit-none d xs)
rsplit-some d (x ∷ xs) (l ∷ left) right h = ground (arith, rsplit-some d xs left right)
