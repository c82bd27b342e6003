-- ===== src/Prelude/Members.antt =====
-- Membership in filtered lists.
use mathlib.Core.Path.{◌≡◌, refl, sym, ap, ◌∙◌}
use mathlib.Core.Logic.{◌⊎◌, inl, inr}
use mathlib.Core.Bool.{Bool, true, false}
use mathlib.Core.List.{List, [], ◌∷◌, Memᴰ}
use mathlib.Core.List.Memᴰ.{head, tail}
use mathlib.Core.Option.{some}
use native.Mathlib.Omega.{arith}
use mailu.Prelude.Booleans.{if◌then◌else◌, Bool-cases}
use mailu.Prelude.Lists.{filter, first}

module _ {ℓ} {A : Type ℓ} {a : A} where
  if_head : (b : Bool) (x : A) (xs : List A) → b ≡ true → a ≡ x → Memᴰ a (if b then x ∷ xs else xs)
  if_head true x xs h e = head e
  if_head false x xs h e = cc

  if_tail : (b : Bool) (x : A) (xs : List A) → Memᴰ a xs → Memᴰ a (if b then x ∷ xs else xs)
  if_tail true x xs m = tail m
  if_tail false x xs m = m

  if_cases :
      (b : Bool) (x : A) (xs : List A)
      → Memᴰ a (if b then x ∷ xs else xs)
      → ((a ≡ x) × (b ≡ true)) ⊎ Memᴰ a xs
  if_cases true x xs (head e) = inl (e, refl)
  if_cases true x xs (tail m) = inr m
  if_cases false x xs m = inr m

  pub mem-filter : (p : A → Bool) (xs : List A) → Memᴰ a xs → p a ≡ true → Memᴰ a (filter p xs)
  mem-filter p [] m h = elim m [ ]
  mem-filter p (x ∷ xs) (head e) h = if_head (p x) x (filter p xs) (ap p (sym e) ∙ h) e
  mem-filter p (x ∷ xs) (tail m) h = if_tail (p x) x (filter p xs) (mem-filter p xs m h)

  pub filter-mem : (p : A → Bool) (xs : List A) → Memᴰ a (filter p xs) → Memᴰ a xs × (p a ≡ true)
  filter-mem p [] m = elim m [ ]
  filter-mem p (x ∷ xs) m = elim (if_cases (p x) x (filter p xs) m) [
    | inl (e, h) ↦ (head e, ap p e ∙ h)
    | inr n ↦ (tail (filter-mem p xs n).0, (filter-mem p xs n).1)
  ]

  pub first-mem : (p : A → Bool) (xs : List A) → first p xs ≡ some a → Memᴰ a xs
  first-mem p [] h = cc
  first-mem p (x ∷ xs) h = elim (Bool-cases (p x)) [
    | inl t ↦ head (ground arith)
    | inr f ↦ tail (first-mem p xs (ground arith))
  ]

  pub first-eq : (p : A → Bool) (xs : List A) → first p xs ≡ some a → p a ≡ true
  first-eq p [] h = cc
  first-eq p (x ∷ xs) h = ground (arith, first-eq p xs)
