-- ===== src/OAuth/Store.antt =====
-- What the queries of the OAuth tables find after an update or a delete.
use mailu.Prelude.{
  ◌≡◌, refl, ◌∙◌, Bool, true, not, none, some, List, [], ◌∷◌, map, arith, if◌then◌else◌, filter,
  Bytes, bytes_eq, bytes_eq_refl, bytes_eq→eq,
}
use mailu.OAuth.{
  AuthorizationCode, Grant, Db, first, find_grant, delete_grant, put_grant, find_code, delete_code,
}

abbrev has_id : Bytes → Grant → Bool
has_id grant_id g = bytes_eq g.grant_id grant_id

abbrev has_hash : Bytes → AuthorizationCode → Bool
has_hash hash c = bytes_eq c.hash hash

first-filter-not {ℓ} :
    {A : Type ℓ} (p : A → Bool) (xs : List A) → first p (filter (λ x. not (p x)) xs) ≡ none
first-filter-not p [] = refl
first-filter-not p (x ∷ xs) = ground (arith, first-filter-not p xs)

first-holds {ℓ} :
    {A : Type ℓ} (p : A → Bool) (xs : List A) (x : A) → first p xs ≡ some x → p x ≡ true
first-holds p [] x h = cc
first-holds p (y ∷ ys) x h = ground (arith, first-holds p ys x)

-- A deleted grant is found no more.
pub find_grant-delete_grant :
    (grant_id : Bytes) (db : Db) → find_grant grant_id (delete_grant grant_id db) ≡ none
unfolding find_grant delete_grant
find_grant-delete_grant grant_id db = first-filter-not (has_id grant_id) db.grants

pub find_grant-id :
    (grant_id : Bytes) (db : Db) {g : Grant}
    → find_grant grant_id db ≡ some g
    → g.grant_id ≡ grant_id
unfolding find_grant
find_grant-id grant_id db {g} h =
    bytes_eq→eq g.grant_id grant_id (first-holds (has_id grant_id) db.grants g h)

-- the row of a grant after an update of it
first-replace :
    (h : Grant) (gs : List Grant)
    → first
        (has_id h.grant_id)
        (map (λ (g : Grant). if bytes_eq g.grant_id h.grant_id then h else g) gs)
      ≡ elim (first (has_id h.grant_id) gs) [ none ↦ none | some g ↦ some h ]
first-replace h [] = refl
first-replace h (g ∷ gs) = ground (arith, first-replace h gs, bytes_eq_refl h.grant_id)

-- An updated grant is found as it was written.
pub find_grant-put_grant :
    (h : Grant) (db : Db) {g : Grant}
    → find_grant h.grant_id db ≡ some g
    → find_grant h.grant_id (put_grant h db) ≡ some h
unfolding find_grant put_grant
find_grant-put_grant h db e = first-replace h db.grants ∙ ground arith

-- A deleted code is found no more.
pub find_code-delete_code : (hash : Bytes) (db : Db) → find_code hash (delete_code hash db) ≡ none
unfolding find_code delete_code
find_code-delete_code hash db = first-filter-not (has_hash hash) db.code_rows

pub find_code-hash :
    (hash : Bytes) (db : Db) {c : AuthorizationCode} → find_code hash db ≡ some c → c.hash ≡ hash
unfolding find_code
find_code-hash hash db {c} h =
    bytes_eq→eq c.hash hash (first-holds (has_hash hash) db.code_rows c h)
