-- ===== src/Mail/Columns.antt =====
-- `CommaSeparatedList` of core/admin/mailu/models.py: a list of texts in one column.
pub mod RoundTrip
pub mod Sorted
use mailu.Prelude.{
  ℕ, Bool, true, false, not, ◌&&◌, ◌||◌, List, [], ◌∷◌, ◌++◌, map, ltb, ◌==◌, if◌then◌else◌, filter,
  any, Bytes, bytes_eq, split_on, has, is_space,
}
use mailu.Mail.{Result, returned, raised}

-- the order of `sorted` on texts
unfoldable pub text_lt : Bytes → Bytes → Bool
text_lt [] [] = false
text_lt [] (y ∷ ys) = true
text_lt (x ∷ xs) [] = false
text_lt (x ∷ xs) (y ∷ ys) = ltb x y || (x == y && text_lt xs ys)

unfoldable pub insert_item : Bytes → List Bytes → List Bytes
insert_item x [] = x ∷ []
insert_item x (y ∷ ys) =
    let rest = insert_item x ys in
    if bytes_eq x y then y ∷ ys else if text_lt x y then x ∷ y ∷ ys else y ∷ rest

-- `sorted(set(value))`
unfoldable pub sorted_set : List Bytes → List Bytes
sorted_set [] = []
sorted_set (x ∷ xs) = insert_item x (sorted_set xs)

-- `','.join(items)`
unfoldable pub join : List Bytes → Bytes
join [] = []
join (x ∷ []) = x
join (x ∷ y ∷ ys) = x ++ b',' ∷ join (y ∷ ys)

-- `process_bind_param`
unfoldable pub comma_bind : List Bytes → Result Bytes
comma_bind value = if any (has b',') value then raised else returned (join (sorted_set value))

unfoldable pub lstrip : Bytes → Bytes
lstrip [] = []
lstrip (x ∷ xs) = let rest = lstrip xs in if is_space x then rest else x ∷ xs

cons_unless_space : ℕ → Bytes → Bytes
cons_unless_space x [] = if is_space x then [] else x ∷ []
cons_unless_space x (y ∷ ys) = x ∷ y ∷ ys

unfoldable pub rstrip : Bytes → Bytes
unfolding cons_unless_space
rstrip [] = []
rstrip (x ∷ xs) = cons_unless_space x (rstrip xs)

unfoldable pub strip : Bytes → Bytes
strip text = rstrip (lstrip text)

unfoldable pub is_empty : Bytes → Bool
is_empty [] = true
is_empty (x ∷ xs) = false

-- `process_result_value`; the empty column holds the empty list
unfoldable pub comma_read : Bytes → List Bytes
comma_read value = filter (λ item. not (is_empty item)) (map strip (split_on b',' value))
