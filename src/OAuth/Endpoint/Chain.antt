-- ===== src/OAuth/Endpoint/Chain.antt =====
-- A client that keeps its refresh token stays signed in.
use mailu.Prelude.{
  ℕ, ◌+◌, ◌<◌, ◌≡◌, refl, ap, ◌∙◌, inr, true, false, Option, none, some, arith, Bytes, has,
}
use mailu.OAuth.{Crypto, Config, Grant, Db, find_user, find_grant, put_grant}
use mailu.OAuth.Token
use mailu.OAuth.Token.{refresh, payload, is_grant_id, dot}
use mailu.OAuth.Token.RoundTrip.{parse-derive}
use mailu.OAuth.Store.{find_grant-id}
use mailu.OAuth.Grants.{Call, Tokens, touch_grant, issue}
use mailu.OAuth.Grants.Issue.{issue-ne-none}
use mailu.OAuth.Endpoint.{
  Form, tokens, refresh_current, refresh_row, refresh_tokens, is_expired, user_is_enabled,
}
use mailu.OAuth.Endpoint.Rotation.{
  Refreshed, presented, refresh_tokens-Refreshed, refresh_tokens-row, refreshed_Issued,
  refreshed_found, refreshed_own, refreshed_generation,
}

module _ (crypto : Crypto) (config : Config) where
  current_total :
      (call : Call) (db : Db) (g : Grant) (limit : ℕ)
      → g.refresh_expires_at ≡ some limit
      → is_expired config call.now g ≡ false
      → user_is_enabled (find_user g.user_email db) ≡ true
      → (t : Tokens) × (db' : Db) × (refresh_current crypto config call db g ≡ (tokens t, db'))
  current_total call db g limit l f u =
      go
        (issue crypto config call g.scope
          (touch_grant call (record g { token_generation = g.token_generation + 1 })))
        refl
    where
      go :
          (o : Option (Tokens × Grant))
          → issue crypto config call g.scope
              (touch_grant call (record g { token_generation = g.token_generation + 1 }))
            ≡ o
          → (t : Tokens) × (db' : Db) × (refresh_current crypto config call db g ≡ (tokens t, db'))
      go none e = absurd (
          issue-ne-none crypto config call g.scope
            (touch_grant call (record g { token_generation = g.token_generation + 1 })) limit
            (unfold touch_grant in l) e)
      go (some (t, h)) e = (t, put_grant h db, unfold refresh_current in ground arith)

  -- the token that the last answer carried
  abbrev pub present : Form → Bytes → Form
  present form token = record form { refresh_token = token }

  module _ (call next : Call) (form : Form) (db db' : Db) (t : Tokens)
      (r : Refreshed crypto config call form db t db') where
    -- the row that a refresh leaves is that of a user who is enabled, and expires as the grant did
    refreshed_enabled : user_is_enabled (find_user r.h.user_email db') ≡ true
    unfolding touch_grant
    refreshed_enabled =
        ap (λ u. user_is_enabled (find_user u db'))
          (refreshed_Issued crypto config call form db db' t r).same_user
        ∙ ap (λ d. user_is_enabled (find_user r.g.user_email d)) r.committed
        ∙ unfold find_user put_grant in r.enabled

    refreshed_limit : r.h.refresh_expires_at ≡ r.g.refresh_expires_at
    unfolding touch_grant
    refreshed_limit = (refreshed_Issued crypto config call form db db' t r).same_limit

    refreshed_fresh :
        (limit : ℕ)
        → r.g.refresh_expires_at ≡ some limit
        → next.now < limit
        → next.now < call.now + config.refresh_token_idle
        → is_expired config next.now r.h ≡ false
    unfolding touch_grant is_expired
    refreshed_fresh limit l before_limit before_idle =
        ground
          (arith, refreshed_limit, (refreshed_Issued crypto config call form db db' t r).same_use)

    new_token_parsed :
        (new_token : Bytes)
        → t.refresh_token ≡ some new_token
        → is_grant_id r.grant_id ≡ true
        → ((p : Bytes) → has dot (crypto.mac p) ≡ false)
        → Token.parse crypto.mac (some refresh) new_token
          ≡ some (refresh, r.grant_id, r.h.token_generation)
    unfolding touch_grant
    new_token_parsed new_token new i mac_dot_free =
        let same : r.g.grant_id ≡ r.grant_id = find_grant-id r.grant_id db r.found in
        let derived : new_token ≡ Token.derive crypto.mac refresh r.grant_id r.h.token_generation =
          ground (
            arith,
            (refreshed_Issued crypto config call form db db' t r).refresh_of,
            refreshed_generation crypto config call form db db' t r,
            same,
          ) in
        ap (Token.parse crypto.mac (some refresh)) derived
        ∙ parse-derive crypto.mac refresh r.grant_id r.h.token_generation i
            (mac_dot_free (payload refresh r.grant_id r.h.token_generation)) (some refresh)
            (inr refl)

    refreshed_again :
        (new_token : Bytes) (limit : ℕ)
        → t.refresh_token ≡ some new_token
        → is_grant_id r.grant_id ≡ true
        → ((p : Bytes) → has dot (crypto.mac p) ≡ false)
        → r.g.refresh_expires_at ≡ some limit
        → next.now < limit
        → next.now < call.now + config.refresh_token_idle
        → (t' : Tokens) × (db'' : Db) × (refresh_tokens crypto config next
              (present form new_token)
              db'
            ≡ (tokens t', db''))
    refreshed_again new_token limit new i mac_dot_free l before_limit before_idle =
        let (t', db'', e) =
          current_total next db' r.h limit (refreshed_limit ∙ l)
            (refreshed_fresh limit l before_limit before_idle) refreshed_enabled in
        (
          t',
          db'',
          refresh_tokens-row crypto config next (present form new_token) db' r.grant_id
                r.h.token_generation r.h (new_token_parsed new_token new i mac_dot_free)
                (refreshed_found crypto config call form db db' t r)
                (refreshed_own crypto config call form db db' t r)
              ∙ (unfold refresh_row in ground (arith, e)),
        )

  -- The refresh token that comes with a refresh is good for the next one, as long as the grant's
  -- absolute limit and the idle time since the refresh have not passed. The grant's identifier has
  -- the form that `token_urlsafe(16)` gives it; a MAC in hexadecimal holds no dot.
  pub refresh_tokens_again :
      (call next : Call) (form : Form) (db db' : Db) (t : Tokens) (new_token grant_id : Bytes)
      (limit n : ℕ) (g : Grant)
      → refresh_tokens crypto config call form db ≡ (tokens t, db')
      → t.refresh_token ≡ some new_token
      → presented crypto config form ≡ some (refresh, grant_id, n)
      → find_grant grant_id db ≡ some g
      → is_grant_id grant_id ≡ true
      → ((p : Bytes) → has dot (crypto.mac p) ≡ false)
      → g.refresh_expires_at ≡ some limit
      → next.now < limit
      → next.now < call.now + config.refresh_token_idle
      → (t' : Tokens) × (db'' : Db) × (refresh_tokens crypto config next
            (present form new_token)
            db'
          ≡ (tokens t', db''))
  refresh_tokens_again call next form db db' t new_token grant_id limit n g e new p f i d l bl bi =
      let r = refresh_tokens-Refreshed crypto config call form db db' t e in
      let same_id : r.grant_id ≡ grant_id = ground (arith, r.parsed, p) in
      let same : r.g ≡ g = ground (arith, r.found, f, same_id) in
      refreshed_again call next form db db' t r new_token limit new (ap is_grant_id same_id ∙ i) d
        (ap (λ (x : Grant). x.refresh_expires_at) same ∙ l) bl bi
