-- ===== src/Mail/Columns/Sorted.antt =====
-- `sorted(set(…))`: the items in order, each once.
use mailu.Prelude.{
  ◌≡◌, refl, sym, ap, ◌∙◌, subst, inl, inr, Bool, true, false, ◌&&◌, ◌||◌, List, [], ◌∷◌, arith,
  Bool-cases, all, Bytes, bytes_eq, bytes_eq_refl, bytes_eq→eq, member,
}
use mailu.Mail.Columns.{text_lt, insert_item, sorted_set}

text_lt_irrefl : (x : Bytes) → text_lt x x ≡ false
unfolding text_lt
text_lt_irrefl [] = refl
text_lt_irrefl (x ∷ xs) = ground (arith, text_lt_irrefl xs)

text_lt_trans : (x y z : Bytes) → text_lt x y ≡ true → text_lt y z ≡ true → text_lt x z ≡ true
unfolding text_lt
text_lt_trans [] [] z h k = cc
text_lt_trans [] (y ∷ ys) [] h k = cc
text_lt_trans [] (y ∷ ys) (z ∷ zs) h k = refl
text_lt_trans (x ∷ xs) [] z h k = cc
text_lt_trans (x ∷ xs) (y ∷ ys) [] h k = cc
text_lt_trans (x ∷ xs) (y ∷ ys) (z ∷ zs) h k = ground (arith, text_lt_trans xs ys zs)

text_lt-total : (x y : Bytes) → bytes_eq x y ≡ false → text_lt x y ≡ false → text_lt y x ≡ true
unfolding text_lt bytes_eq
text_lt-total [] [] h k = cc
text_lt-total [] (y ∷ ys) h k = cc
text_lt-total (x ∷ xs) [] h k = refl
text_lt-total (x ∷ xs) (y ∷ ys) h k = ground (arith, text_lt-total xs ys)

pub bytes_eq_sym : (x y : Bytes) → bytes_eq x y ≡ bytes_eq y x
unfolding bytes_eq
bytes_eq_sym [] [] = refl
bytes_eq_sym [] (y ∷ ys) = refl
bytes_eq_sym (x ∷ xs) [] = refl
bytes_eq_sym (x ∷ xs) (y ∷ ys) = ground (arith, bytes_eq_sym xs ys)

pub all-insert_item :
    (p : Bytes → Bool) (x : Bytes) (ys : List Bytes)
    → p x ≡ true
    → all p ys ≡ true
    → all p (insert_item x ys) ≡ true
unfolding insert_item
all-insert_item p x [] h k = ground arith
all-insert_item p x (y ∷ ys) h k = ground (arith, all-insert_item p x ys h)

pub all-sorted_set :
    (p : Bytes → Bool) (xs : List Bytes) → all p xs ≡ true → all p (sorted_set xs) ≡ true
unfolding sorted_set
all-sorted_set p [] h = refl
all-sorted_set p (x ∷ xs) h =
    all-insert_item p x (sorted_set xs) (ground arith) (all-sorted_set p xs (ground arith))

member-insert_item :
    (z x : Bytes) (ys : List Bytes) → member z (insert_item x ys) ≡ (bytes_eq x z || member z ys)
unfolding insert_item member
member-insert_item z x [] = refl
member-insert_item z x (y ∷ ys) = elim (Bool-cases (bytes_eq x y)) [
  | inl t ↦ ground (arith, bytes_eq→eq x y t, ap (λ w. bytes_eq w z) (bytes_eq→eq x y t))
  | inr f ↦ ground (arith, member-insert_item z x ys)
]

pub member-sorted_set : (z : Bytes) (xs : List Bytes) → member z (sorted_set xs) ≡ member z xs
unfolding sorted_set member
member-sorted_set z [] = refl
member-sorted_set z (x ∷ xs) =
    member-insert_item z x (sorted_set xs) ∙ ap (λ m. bytes_eq x z || m) (member-sorted_set z xs)

unfoldable pub is_sorted : List Bytes → Bool
is_sorted [] = true
is_sorted (x ∷ xs) = all (text_lt x) xs && is_sorted xs

all-lt :
    (x y : Bytes) (ys : List Bytes)
    → text_lt x y ≡ true
    → all (text_lt y) ys ≡ true
    → all (text_lt x) ys ≡ true
all-lt x y [] h k = refl
all-lt x y (z ∷ zs) h k = ground (arith, text_lt_trans x y z, all-lt x y zs h)

insert_item-IsSorted :
    (x : Bytes) (ys : List Bytes) → is_sorted ys ≡ true → is_sorted (insert_item x ys) ≡ true
unfolding insert_item is_sorted
insert_item-IsSorted x [] h = refl
insert_item-IsSorted x (y ∷ ys) h = elim (Bool-cases (bytes_eq x y)) [
  | inl t ↦ ground arith
  | inr f ↦ elim (Bool-cases (text_lt x y)) [
    | inl t ↦ ground (arith, all-lt x y ys t)
    | inr g ↦
        ground (
          arith,
          insert_item-IsSorted x ys,
          all-insert_item (text_lt y) x ys (text_lt-total x y f g),
        )
  ]
]

sorted_set-IsSorted : (xs : List Bytes) → is_sorted (sorted_set xs) ≡ true
unfolding sorted_set is_sorted
sorted_set-IsSorted [] = refl
sorted_set-IsSorted (x ∷ xs) = insert_item-IsSorted x (sorted_set xs) (sorted_set-IsSorted xs)

member-below :
    (x z : Bytes) (ys : List Bytes)
    → all (text_lt x) ys ≡ true
    → member z ys ≡ true
    → text_lt x z ≡ true
unfolding member
member-below x z [] h k = cc
member-below x z (y ∷ ys) h k = elim (Bool-cases (bytes_eq y z)) [
  | inl t ↦ subst (λ w. text_lt x w ≡ true) (bytes_eq→eq y z t) (ground arith)
  | inr f ↦ member-below x z ys (ground arith) (ground arith)
]

heads_agree :
    (x y : Bytes) (xs ys : List Bytes)
    → is_sorted (x ∷ xs) ≡ true
    → is_sorted (y ∷ ys) ≡ true
    → member x (y ∷ ys) ≡ true
    → member y (x ∷ xs) ≡ true
    → bytes_eq x y ≡ true
unfolding member is_sorted
heads_agree x y xs ys s t h k = elim (Bool-cases (bytes_eq x y)) [
  | inl e ↦ e
  | inr f ↦ ground (
    arith,
    bytes_eq_sym x y,
    member-below y x ys,
    member-below x y xs,
    text_lt_trans x y x,
    text_lt_irrefl x,
  )
]

not_member-below : (x : Bytes) (ys : List Bytes) → all (text_lt x) ys ≡ true → member x ys ≡ false
not_member-below x ys h = elim (Bool-cases (member x ys)) [
  | inl t ↦ ground (arith, member-below x x ys h t, text_lt_irrefl x)
  | inr f ↦ f
]

tails_agree :
    (x z : Bytes) (xs ys : List Bytes)
    → is_sorted (x ∷ xs) ≡ true
    → is_sorted (x ∷ ys) ≡ true
    → member z (x ∷ xs) ≡ member z (x ∷ ys)
    → member z xs ≡ member z ys
unfolding member is_sorted
tails_agree x z xs ys s t h = elim (Bool-cases (bytes_eq x z)) [
  | inl e ↦
      subst (λ w. member w xs ≡ member w ys) (bytes_eq→eq x z e)
        (not_member-below x xs (ground arith) ∙ sym (not_member-below x ys (ground arith)))
  | inr f ↦ ground arith
]

member-head : (x : Bytes) (xs : List Bytes) → member x (x ∷ xs) ≡ true
unfolding member
member-head x xs = ground (arith, bytes_eq_refl x)

is_sorted-tail : (x : Bytes) (xs : List Bytes) → is_sorted (x ∷ xs) ≡ true → is_sorted xs ≡ true
unfolding is_sorted
is_sorted-tail x xs h = ground arith

IsSorted-unique :
    (xs ys : List Bytes)
    → is_sorted xs ≡ true
    → is_sorted ys ≡ true
    → ((z : Bytes) → member z xs ≡ member z ys)
    → xs ≡ ys
unfolding member
IsSorted-unique [] [] s t h = refl
IsSorted-unique [] (y ∷ ys) s t h = absurd (ground (arith, h y, member-head y ys))
IsSorted-unique (x ∷ xs) [] s t h = absurd (ground (arith, h x, member-head x xs))
IsSorted-unique (x ∷ xs) (y ∷ ys) s t h =
    let e =
      bytes_eq→eq x y
        (heads_agree x y xs ys s t (sym (h x) ∙ member-head x xs) (h y ∙ member-head y ys)) in
    ap (λ w. w ∷ xs) e
    ∙ ap (λ l. y ∷ l)
        (IsSorted-unique xs ys (is_sorted-tail x xs s) (is_sorted-tail y ys t) (λ z.
          tails_agree y z xs ys (subst (λ w. is_sorted (w ∷ xs) ≡ true) e s) t
            (subst (λ w. member z (w ∷ xs) ≡ member z (y ∷ ys)) e (h z))))

-- Lists of the same members are put in the same order.
pub sorted_set-same :
    (xs ys : List Bytes) → ((z : Bytes) → member z xs ≡ member z ys) → sorted_set xs ≡ sorted_set ys
sorted_set-same xs ys h =
    IsSorted-unique (sorted_set xs) (sorted_set ys) (sorted_set-IsSorted xs)
      (sorted_set-IsSorted ys) (λ z. member-sorted_set z xs ∙ h z ∙ sym (member-sorted_set z ys))
