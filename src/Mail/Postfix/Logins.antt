-- ===== src/Mail/Postfix/Logins.antt =====
-- Which logins may send as an address.
use mathlib.Core.List.{Memᴰ}
use mailu.Prelude.{◌≡◌, true, List, Bytes}
use mailu.Mail.{returned, Idna, User, Db, bind_domain, read_email}

-- a user of the domain that may send under its addresses
pub record Spoofer (idna : Idna) (db : Db) (domain_name login : Bytes) : Type 0 where
  pub u : User
  pub key : Bytes
  pub stored : Memᴰ u db.users
  pub allowed : u.allow_spoofing ≡ true
  pub bound : bind_domain idna domain_name ≡ returned key
  pub own : u.domain_name ≡ key
  pub reads : read_email idna u.email ≡ returned login
