-- ===== src/OAuth.antt =====
-- core/admin/mailu/oauth2.py: the OAuth 2.0 authorization server for mail clients, with the tables
-- of core/admin/mailu/models.py that it keeps. A request's time, its fresh random identifier and
-- the name read off its User-Agent are arguments; a mail token's MAC and the two SHA-256 digests
-- are those of `Crypto`.
pub mod Token
pub mod Store
pub mod Grants
pub mod Endpoint
pub mod Pages
pub mod Introspect
pub mod Authorize
pub mod Consent
mod Tests
use mailu.Prelude.{
  ℕ, Bool, not, Option, List, map, if◌then◌else◌, filter, first, Bytes, codes, bytes_eq, member,
  words,
}

abbrev pub client_id : Bytes
client_id = codes "mailu"

-- EXPIRED_GRANT_RETENTION, and AUTHORIZATION_CODE_TTL
abbrev pub expired_grant_retention : ℕ
expired_grant_retention = 2592000

abbrev pub authorization_code_ttl : ℕ
authorization_code_ttl = 300

pub record Crypto : Type 0 where
  -- `hmac.new(key, payload, sha256).hexdigest()` under the server's derived key
  pub mac : Bytes → Bytes
  -- `sha256(code).hexdigest()`
  pub code_hash : Bytes → Bytes
  -- `urlsafe_b64encode(sha256(verifier))` without its padding
  pub challenge : Bytes → Bytes

pub record Config : Type 0 where
  pub access_token_ttl : ℕ
  pub refresh_token_ttl : ℕ
  pub refresh_token_idle : ℕ

pub record AuthorizationCode : Type 0 where
  pub hash : Bytes
  pub user_email : Bytes
  pub client : Bytes
  pub redirect_uri : Bytes
  pub scope : Bytes
  pub code_challenge : Bytes
  pub expires_at : ℕ

pub record Grant : Type 0 where
  pub grant_id : Bytes
  pub user_email : Bytes
  pub client : Bytes
  pub token_generation : ℕ
  pub scope : Bytes
  pub access_expires_at : ℕ
  pub refresh_expires_at : Option ℕ
  pub client_name : Bytes
  pub last_refresh_at : Option ℕ

pub record User : Type 0 where
  pub email : Bytes
  pub enabled : Bool
  pub enable_imap : Bool
  pub enable_pop : Bool

pub record Db : Type 0 where
  pub code_rows : List AuthorizationCode
  pub grants : List Grant
  pub users : List User

unfoldable pub find_user : Bytes → Db → Option User
find_user email db = first (λ (u : User). bytes_eq u.email email) db.users

-- `grant_id` is unique in the table
unfoldable pub find_grant : Bytes → Db → Option Grant
find_grant grant_id db = first (λ (g : Grant). bytes_eq g.grant_id grant_id) db.grants

unfoldable pub delete_grant : Bytes → Db → Db
delete_grant grant_id db = record db {
  grants = filter (λ (g : Grant). not (bytes_eq g.grant_id grant_id)) db.grants;
}

-- an update of the row of `g`
unfoldable pub put_grant : Grant → Db → Db
put_grant g db = record db {
  grants = map (λ (h : Grant). if bytes_eq h.grant_id g.grant_id then g else h) db.grants;
}

unfoldable pub find_code : Bytes → Db → Option AuthorizationCode
find_code hash db = first (λ (c : AuthorizationCode). bytes_eq c.hash hash) db.code_rows

unfoldable pub delete_code : Bytes → Db → Db
delete_code hash db = record db {
  code_rows = filter (λ (c : AuthorizationCode). not (bytes_eq c.hash hash)) db.code_rows;
}

abbrev pub offline_access : Bytes
offline_access = codes "offline_access"

unfoldable pub has_offline_access : Bytes → Bool
has_offline_access scope = member offline_access (words scope)
