-- ===== src/Prelude/Dicts.antt =====
-- A Python `dict` whose keys are texts, as the list of its items in the order of insertion.

use mathlib.Core.Path.{◌≡◌, refl}
use mathlib.Core.Bool.{Bool, true, false, not, ◌&&◌, ◌||◌}
use mathlib.Core.List.{List, [], ◌∷◌}
use mathlib.Core.Option.{Option, none, some}
use native.Mathlib.Omega.{arith}
use mailu.Prelude.Booleans.{if◌then◌else◌}
use mailu.Prelude.Text.{Bytes, bytes_eq, bytes_eq_refl, bytes_eq→eq}

abbrev pub Dict {ℓ} : Type ℓ → Type ℓ
Dict V = List (Bytes × V)

module _ {ℓ} {V : Type ℓ} where
  -- `d.get(key)`
  abbrev pub get_item : Bytes → Dict V → Option V
  get_item key [] = none
  get_item key ((k, v) ∷ items) =
      let rest = get_item key items in if bytes_eq k key then some v else rest

  -- `d[key] = value`: an item keeps its place, a new one goes to the end
  abbrev pub set_item : Bytes → V → Dict V → Dict V
  set_item key value [] = (key, value) ∷ []
  set_item key value ((k, v) ∷ items) =
      let rest = set_item key value items in
      if bytes_eq k key then (k, value) ∷ items else (k, v) ∷ rest

  -- `d.pop(key, None)`
  abbrev pub del_item : Bytes → Dict V → Dict V
  del_item key [] = []
  del_item key ((k, v) ∷ items) =
      let rest = del_item key items in if bytes_eq k key then rest else (k, v) ∷ rest

  abbrev pub has_key : Bytes → Dict V → Bool
  has_key key [] = false
  has_key key ((k, v) ∷ items) = bytes_eq k key || has_key key items

pub bytes_eq_trans_false :
    (x y z : Bytes) → bytes_eq x y ≡ true → bytes_eq y z ≡ false → bytes_eq x z ≡ false
bytes_eq_trans_false x y z h g = ground (arith, bytes_eq→eq x y)

pub bytes_eq_join :
    (x y z : Bytes) → bytes_eq x z ≡ true → bytes_eq y z ≡ true → bytes_eq x y ≡ true
bytes_eq_join x y z h g = ground (arith, bytes_eq→eq x z, bytes_eq→eq y z, bytes_eq_refl z)

module _ {ℓ} {V : Type ℓ} where
  pub get_item-set_item :
      (key : Bytes) (v : V) (d : Dict V) → get_item key (set_item key v d) ≡ some v
  get_item-set_item key v [] = ground (arith, bytes_eq_refl key)
  get_item-set_item key v ((k, w) ∷ d) = ground (arith, get_item-set_item key v d)

  pub get_item-set_item_ne :
      (key other : Bytes) (v : V) (d : Dict V)
      → bytes_eq key other ≡ false
      → get_item other (set_item key v d) ≡ get_item other d
  get_item-set_item_ne key other v [] h = ground arith
  get_item-set_item_ne key other v ((k, w) ∷ d) h =
      ground (arith, get_item-set_item_ne key other v d, bytes_eq_trans_false k key other)

  pub get_item-del_item : (key : Bytes) (d : Dict V) → get_item key (del_item key d) ≡ none
  get_item-del_item key [] = refl
  get_item-del_item key ((k, w) ∷ d) = ground (arith, get_item-del_item key d)

  pub get_item-del_item_ne :
      (key other : Bytes) (d : Dict V)
      → bytes_eq key other ≡ false
      → get_item other (del_item key d) ≡ get_item other d
  get_item-del_item_ne key other [] h = refl
  get_item-del_item_ne key other ((k, w) ∷ d) h =
      ground (arith, get_item-del_item_ne key other d, bytes_eq_trans_false k key other)

  pub has_key-set_item :
      (key other : Bytes) (v : V) (d : Dict V)
      → has_key other (set_item key v d) ≡ (bytes_eq key other || has_key other d)
  has_key-set_item key other v [] = ground arith
  has_key-set_item key other v ((k, w) ∷ d) =
      ground (arith, has_key-set_item key other v d, bytes_eq→eq k key)

  pub get_item-has_key : (key : Bytes) (d : Dict V) → has_key key d ≡ false → get_item key d ≡ none
  get_item-has_key key [] h = refl
  get_item-has_key key ((k, w) ∷ d) h = ground (arith, get_item-has_key key d)

  pub has_key-get_item :
      (key : Bytes) (d : Dict V) (v : V) → get_item key d ≡ some v → has_key key d ≡ true
  has_key-get_item key [] v h = cc
  has_key-get_item key ((k, w) ∷ d) v h = ground (arith, has_key-get_item key d v)

  pub has_key-del_item :
      (key other : Bytes) (d : Dict V)
      → has_key other (del_item key d) ≡ (not (bytes_eq key other) && has_key other d)
  has_key-del_item key other [] = ground arith
  has_key-del_item key other ((k, w) ∷ d) =
      ground (arith, has_key-del_item key other d, bytes_eq→eq k key, bytes_eq_join k key other)

  pub del_item-absent : (key : Bytes) (d : Dict V) → has_key key d ≡ false → del_item key d ≡ d
  del_item-absent key [] h = refl
  del_item-absent key ((k, w) ∷ d) h = ground (arith, del_item-absent key d)

  pub del_item-set_item :
      (key : Bytes) (v : V) (d : Dict V)
      → has_key key d ≡ false
      → del_item key (set_item key v d) ≡ d
  del_item-set_item key v [] h = ground (arith, bytes_eq_refl key)
  del_item-set_item key v ((k, w) ∷ d) h = ground (arith, del_item-set_item key v d)
