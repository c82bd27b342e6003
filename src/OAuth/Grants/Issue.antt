-- ===== src/OAuth/Grants/Issue.antt =====
-- `_issue_tokens`: the tokens of a grant, and the row that goes with them.
use mailu.Prelude.{ℕ, ◌+◌, ◌-◌, ◌≤◌, ◌≡◌, ◌≢◌, none, some, arith, if◌then◌else◌, Bytes}
use mailu.OAuth.{Crypto, Config, Grant, has_offline_access}
use mailu.OAuth.Token
use mailu.OAuth.Token.{access, refresh}
use mailu.OAuth.Grants.{Call, Tokens, access_expiry, issue}

-- what `issue` returns for the row `g`
pub record Issued (crypto : Crypto) (config : Config) (call : Call) (scope : Bytes) (g : Grant)
    (t : Tokens) (h : Grant) : Type 0 where
  pub same_id : h.grant_id ≡ g.grant_id
  pub same_client : h.client ≡ g.client
  pub same_user : h.user_email ≡ g.user_email
  pub same_generation : h.token_generation ≡ g.token_generation
  pub same_limit : h.refresh_expires_at ≡ g.refresh_expires_at
  pub same_use : h.last_refresh_at ≡ g.last_refresh_at
  pub given_scope : h.scope ≡ scope
  pub access_of : t.access_token ≡ Token.derive crypto.mac access g.grant_id g.token_generation
  pub refresh_of : t.refresh_token ≡ (
      if has_offline_access scope
      then some (Token.derive crypto.mac refresh g.grant_id g.token_generation)
      else none)
  pub lifetime : t.expires_in ≡ h.access_expires_at - call.now
  pub within : h.access_expires_at ≤ call.now + config.access_token_ttl

module _ (crypto : Crypto) (config : Config) (call : Call) (scope : Bytes) (g : Grant) where
  pub issue-Issued :
      (t : Tokens) (h : Grant)
      → issue crypto config call scope g ≡ some (t, h)
      → Issued crypto config call scope g t h
  unfolding issue access_expiry
  issue-Issued t h e = record {
    same_id = ground arith;
    same_client = ground arith;
    same_user = ground arith;
    same_generation = ground arith;
    same_limit = ground arith;
    same_use = ground arith;
    given_scope = ground arith;
    access_of = ground arith;
    refresh_of = ground arith;
    lifetime = ground arith;
    within = ground arith;
  }

  -- `min` has both its arguments
  pub issue-ne-none :
      (limit : ℕ) → g.refresh_expires_at ≡ some limit → issue crypto config call scope g ≢ none
  unfolding issue access_expiry
  issue-ne-none limit h e = ground arith
