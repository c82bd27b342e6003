-- ===== src/Auth/Password/Cache.antt =====
-- The cache of credentials.
use mailu.Prelude.{
  ◌≡◌, refl, sym, ap, ◌∙◌, ◌≢◌, inl, inr, Bool, true, false, Option, none, some, [], ◌∷◌, arith,
  Bool-cases, length, Bytes, bytes_eq, bytes_eq_refl, bytes_eq→eq, split_on,
}
use mailu.Mail.{returned}
use mailu.Auth.{Passlib, Account}
use mailu.Auth.Password.{
  fourth, current_salt, reference, remember, verify_stored, check_cached, check_password,
}

module _ (passlib : Passlib) (password : Bytes) where
  -- where the answer to a password comes from: the entry of the cache, when it is of the salt of the
  -- stored hash, or the stored hash
  pub data Source (user : Account) : Type 0 where
    by_cache :
        (salt hash : Bytes)
        → user.cached ≡ some (salt, hash)
        → current_salt user.password ≡ some salt
        → passlib.pbkdf2_verify password hash ≡ true
        → Source user
    by_stored :
        (passlib.verify_and_update password (reference user.password)).0 ≡ true → Source user

  remember_inverse :
      (user after : Account) (stored : Bytes) (result : Bool) (salt : Option Bytes)
      → remember passlib password user stored result salt ≡ returned (true, after)
      → (result ≡ true)
        × (after.password ≡ stored)
        × ((x : Bytes) × (salt ≡ some x) × (after.cached ≡ some (x, passlib.pbkdf2_hash password)))
  unfolding remember
  remember_inverse user after stored false salt h = absurd (ground arith)
  remember_inverse user after stored true none h = absurd (ground arith)
  remember_inverse user after stored true (some x) h = (refl, ground arith, (x, refl, ground arith))

  verify_stored_inverse :
      (user after : Account)
      → verify_stored passlib password user ≡ returned (true, after)
      → ((passlib.verify_and_update password (reference user.password)).0 ≡ true)
        × ((x : Bytes) × (fourth (split_on b'$' after.password) ≡ some x)
            × (after.cached ≡ some (x, passlib.pbkdf2_hash password)))
  unfolding verify_stored
  verify_stored_inverse user after h =
      let (right, stored, (x, salt, cached)) = remember_inverse user after _ _ _ h in
      (right, (x, ap (λ t. fourth (split_on b'$' t)) stored ∙ salt, cached))

  check_cached-Source :
      (user after : Account) (cached : Option (Bytes × Bytes)) (salt : Option Bytes)
      → user.cached ≡ cached
      → current_salt user.password ≡ salt
      → check_cached passlib password user cached salt ≡ returned (true, after)
      → Source user
  unfolding check_cached
  check_cached-Source user after none salt c s h = by_stored (verify_stored_inverse user after h).0
  check_cached-Source user after (some entry) none c s h =
      by_stored (verify_stored_inverse user after h).0
  check_cached-Source user after (some (cs, ch)) (some salt) c s h =
      elim (Bool-cases (bytes_eq cs salt)) [
        | inl t ↦ by_cache cs ch c (s ∙ ap some (sym (bytes_eq→eq cs salt t))) (ground arith)
        | inr f ↦
            by_stored (verify_stored_inverse (record user { cached = none }) after (ground arith)).0
      ]

-- A password is accepted only by the stored hash or by an entry of the cache of the same salt.
pub check_password-Source :
    (passlib : Passlib) (password : Bytes) (user after : Account)
    → check_password passlib password user ≡ returned (true, after)
    → Source passlib password user
unfolding check_password
check_password-Source passlib [] user after h = absurd (ground arith)
check_password-Source passlib (c ∷ password) user after h =
    check_cached-Source passlib (c ∷ password) user after user.cached (current_salt user.password)
      refl refl h

current_salt-five :
    (password x : Bytes)
    → length (split_on b'$' password) ≡ 5
    → fourth (split_on b'$' password) ≡ some x
    → current_salt password ≡ some x
unfolding current_salt
current_salt-five password x five salt = ground arith

cached_answer :
    (passlib : Passlib) (password : Bytes) (after : Account) (x : Bytes)
    → passlib.pbkdf2_verify password (passlib.pbkdf2_hash password) ≡ true
    → check_cached passlib password after (some (x, passlib.pbkdf2_hash password)) (some x)
      ≡ returned (true, after)
unfolding check_cached
cached_answer passlib password after x same = ground (arith, bytes_eq_refl x)

-- The password that was accepted by the stored hash is accepted again, by the cache then, and nothing
-- changes: for a stored hash of five fields and a fast hash that verifies what it was made of.
pub check_password_again :
    (passlib : Passlib) (password : Bytes) (user after : Account)
    → verify_stored passlib password user ≡ returned (true, after)
    → password ≢ []
    → length (split_on b'$' after.password) ≡ 5
    → passlib.pbkdf2_verify password (passlib.pbkdf2_hash password) ≡ true
    → check_password passlib password after ≡ returned (true, after)
unfolding check_password
check_password_again passlib [] user after h given five same = absurd (given refl)
check_password_again passlib (c ∷ password) user after h given five same =
    let (right, (x, salt, cached)) = verify_stored_inverse passlib (c ∷ password) user after h in
    ap (λ o. check_cached passlib (c ∷ password) after o (current_salt after.password)) cached
    ∙ ap (check_cached passlib (c ∷ password) after (some (x, passlib.pbkdf2_hash (c ∷ password))))
        (current_salt-five after.password x five salt)
    ∙ cached_answer passlib (c ∷ password) after x same
