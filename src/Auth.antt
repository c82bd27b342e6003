-- ===== src/Auth.antt =====
-- core/admin/mailu/internal/nginx.py and the passwords of core/admin/mailu/models.py: who may log in.
-- The hashes of the `passlib` package and the containment of addresses in networks are arguments.
pub mod Password
pub mod Nginx
pub mod Limiter
mod Tests
use mailu.Prelude.{Bool, Option, List, Bytes}

-- what is used of `passlib`; a hash is made with the salt that the package draws for it
pub record Passlib : Type 0 where
  -- whether the password is right, and its new hash when the scheme of the old one is deprecated
  pub verify_and_update : Bytes → Bytes → Bool × Option Bytes
  pub pbkdf2_verify : Bytes → Bytes → Bool
  pub pbkdf2_hash : Bytes → Bytes
  pub sha256_verify : Bytes → Bytes → Bool

pub record AppToken : Type 0 where
  pub hash : Bytes
  pub ip : List Bytes

-- a user's row, with its entry in the cache of credentials: a salt and a fast hash
pub record Account : Type 0 where
  pub email : Bytes
  pub enabled : Bool
  pub enable_imap : Bool
  pub enable_pop : Bool
  pub password : Bytes
  pub cached : Option (Bytes × Bytes)
  pub tokens : List AppToken
