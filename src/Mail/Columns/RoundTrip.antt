-- ===== src/Mail/Columns/RoundTrip.antt =====
-- What a list is when it is read back from its column.
use mailu.Prelude.{
  ◌≡◌, refl, sym, ap, ◌∙◌, inl, inr, Bool, true, false, not, ◌&&◌, List, [], ◌∷◌, arith, Bool-cases,
  any, all, Bytes, bytes_eq, bytes_eq_refl, bytes_eq→eq, split_on, has, member, split_on-clean,
  split_on-append,
}
use mailu.Mail.{returned}
use mailu.Mail.Columns.{sorted_set, join, comma_bind, comma_read, lstrip, rstrip, strip, is_empty}
use mailu.Mail.Columns.Sorted.{all-sorted_set, sorted_set-same, member-sorted_set}

-- an item without commas, white space round it, or nothing in it
unfoldable pub is_item : Bytes → Bool
is_item x = not (has b',' x) && not (is_empty x) && bytes_eq (strip x) x

comma_read-join : (xs : List Bytes) → all is_item xs ≡ true → comma_read (join xs) ≡ xs
unfolding comma_read join is_item split_on strip rstrip lstrip is_empty
comma_read-join [] h = refl
comma_read-join (x ∷ []) h = ground (arith, split_on-clean b',' x, bytes_eq→eq (strip x) x)
comma_read-join (x ∷ y ∷ ys) h = ground (
  arith,
  split_on-append b',' x (join (y ∷ ys)),
  bytes_eq→eq (strip x) x,
  comma_read-join (y ∷ ys),
)

no_commas : (xs : List Bytes) → all is_item xs ≡ true → any (has b',') xs ≡ false
unfolding is_item
no_commas [] h = refl
no_commas (x ∷ xs) h = ground (arith, no_commas xs)

-- A list of clean items is stored, and read back with the same members, in order and each once.
pub comma_read-comma_bind :
    (xs : List Bytes)
    → all is_item xs ≡ true
    → (column : Bytes) × (comma_bind xs ≡ returned column)
      × (comma_read column ≡ sorted_set xs)
      × ((z : Bytes) → member z (comma_read column) ≡ member z xs)
unfolding comma_bind
comma_read-comma_bind xs h =
    let read = comma_read-join (sorted_set xs) (all-sorted_set is_item xs h) in
    (
      join (sorted_set xs),
      ground (arith, no_commas xs),
      read,
      λ z. ap (member z) read ∙ member-sorted_set z xs,
    )

any-member :
    (p : Bytes → Bool) (xs : List Bytes) (x : Bytes)
    → member x xs ≡ true
    → p x ≡ true
    → any p xs ≡ true
unfolding member
any-member p [] x h k = cc
any-member p (y ∷ ys) x h k = elim (Bool-cases (bytes_eq y x)) [
  | inl t ↦ ground (arith, ap p (bytes_eq→eq y x t))
  | inr f ↦ ground (arith, any-member p ys x)
]

any_inverse :
    (p : Bytes → Bool) (xs : List Bytes)
    → any p xs ≡ true
    → (x : Bytes) × (member x xs ≡ true) × (p x ≡ true)
unfolding member
any_inverse p [] h = cc
any_inverse p (x ∷ xs) h = elim (Bool-cases (p x)) [
  | inl t ↦ (x, ground (arith, bytes_eq_refl x), t)
  | inr f ↦ let (y, m, e) = any_inverse p xs (ground arith) in (y, ground arith, e)
]

any-same :
    (p : Bytes → Bool) (xs ys : List Bytes)
    → ((z : Bytes) → member z xs ≡ member z ys)
    → any p xs ≡ true
    → any p ys ≡ true
any-same p xs ys h t = let (x, m, e) = any_inverse p xs t in any-member p ys x (sym (h x) ∙ m) e

-- The column forgets the order and the repetitions of a list, and nothing else.
pub comma_bind-same :
    (xs ys : List Bytes) → ((z : Bytes) → member z xs ≡ member z ys) → comma_bind xs ≡ comma_bind ys
unfolding comma_bind
comma_bind-same xs ys h = ground (
  arith,
  any-same (has b',') xs ys h,
  any-same (has b',') ys xs (λ z. sym (h z)),
  sorted_set-same xs ys h,
)
