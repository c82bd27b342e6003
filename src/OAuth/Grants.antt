-- ===== src/OAuth/Grants.antt =====
-- core/admin/mailu/oauth2.py: what happens to the rows of the grants: `_issue_tokens`,
-- `force_reauthentication`, `force_user_reauthentication` and `cleanup_expired_records`. Times are
-- seconds; where the source subtracts times, the model adds on the other side.
pub mod Issue
use mailu.Prelude.{
  ℕ, ◌+◌, ◌-◌, min, Bool, false, not, ◌||◌, Option, none, some, map, leb, if◌then◌else◌, length,
  filter, Bytes, bytes_eq,
}
use mailu.OAuth.{
  Crypto, Config, AuthorizationCode, Grant, Db, expired_grant_retention, has_offline_access,
}
use mailu.OAuth.Token
use mailu.OAuth.Token.{access, refresh}

-- the time and the random bits of a request, and the name read off its User-Agent
pub record Call : Type 0 where
  pub now : ℕ
  pub fresh_id : Bytes
  pub agent_name : Bytes

pub record Tokens : Type 0 where
  pub access_token : Bytes
  pub expires_in : ℕ
  pub token_scope : Bytes
  pub refresh_token : Option Bytes

-- the row of a new grant, before the tokens are derived
unfoldable pub new_grant : Config → Call → Bytes → Bytes → Bytes → Grant
new_grant config call user_email client scope = record {
  grant_id = call.fresh_id;
  user_email = user_email;
  client = client;
  token_generation = 0;
  scope = scope;
  access_expires_at = call.now + config.access_token_ttl;
  refresh_expires_at =
      if has_offline_access scope then some (call.now + config.refresh_token_ttl) else none;
  client_name = call.agent_name;
  last_refresh_at = some call.now;
}

-- the row of a grant that is refreshed
unfoldable pub touch_grant : Call → Grant → Grant
touch_grant call g = record g { client_name = call.agent_name; last_refresh_at = some call.now }

-- none is the TypeError of `min` at a grant without a refresh expiry
unfoldable pub access_expiry : Config → Call → Bool → Grant → Option ℕ
access_expiry config call offline g =
    if offline
    then elim g.refresh_expires_at [
      | none ↦ none
      | some limit ↦ some (
          min (min (call.now + config.access_token_ttl) limit)
            (call.now + config.refresh_token_idle))
    ]
    else some (call.now + config.access_token_ttl)

-- the second half of `_issue_tokens`: both tokens, the new expiry, and the row as it is committed
unfoldable pub issue : Crypto → Config → Call → Bytes → Grant → Option (Tokens × Grant)
issue crypto config call scope g =
    let offline = has_offline_access scope in
    elim (access_expiry config call offline g) [
      | none ↦ none
      | some expires_at ↦ some (
        record {
          access_token = Token.derive crypto.mac access g.grant_id g.token_generation;
          expires_in = expires_at - call.now;
          token_scope = scope;
          refresh_token =
              if offline
              then some (Token.derive crypto.mac refresh g.grant_id g.token_generation)
              else none;
        },
        record g { scope = scope; access_expires_at = expires_at },
      )
    ]

unfoldable pub force_reauthentication : ℕ → Grant → Grant
force_reauthentication now g = record g {
  access_expires_at = min g.access_expires_at now;
  refresh_expires_at = elim g.refresh_expires_at [ none ↦ none | some t ↦ some (min t now) ];
}

-- every grant of the user
unfoldable pub force_user_reauthentication : ℕ → Bytes → Db → Db
unfolding force_reauthentication
force_user_reauthentication now email db = record db {
  grants =
      map (λ (g : Grant). if bytes_eq g.user_email email then force_reauthentication now g else g)
        db.grants;
}

-- the three conditions under which `cleanup_expired_records` deletes a grant
unfoldable pub grant_is_stale : Config → ℕ → Grant → Bool
grant_is_stale config now g =
    elim g.refresh_expires_at [
      | none ↦ leb (g.access_expires_at + expired_grant_retention) now
      | some t ↦ leb (t + expired_grant_retention) now
    ]
    || elim g.last_refresh_at [
      | none ↦ false
      | some t ↦ leb (t + expired_grant_retention + config.refresh_token_idle) now
    ]

unfoldable pub code_is_expired : ℕ → AuthorizationCode → Bool
code_is_expired now c = leb c.expires_at now

-- the numbers of the removed codes and grants come with the state
unfoldable pub cleanup_expired_records : Config → ℕ → Db → Db × (ℕ × ℕ)
unfolding grant_is_stale code_is_expired
cleanup_expired_records config now db = (
  record db {
    code_rows = filter (λ c. not (code_is_expired now c)) db.code_rows;
    grants = filter (λ g. not (grant_is_stale config now g)) db.grants;
  },
  (
    length (filter (code_is_expired now) db.code_rows),
    length (filter (grant_is_stale config now) db.grants),
  ),
)
