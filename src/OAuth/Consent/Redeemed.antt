-- ===== src/OAuth/Consent/Redeemed.antt =====
-- From the consent page to the token endpoint.
use mailu.Prelude.{
  ℕ, ◌+◌, ◌<◌, ◌≡◌, ap, ◌∙◌, Bool, true, none, some, List, arith, Bytes, bytes_eq, bytes_eq_refl,
  bytes_eq→eq, first-eq, lt→ltb,
}
use mailu.OAuth.{
  Crypto, Config, AuthorizationCode, User, Db, client_id, authorization_code_ttl, find_user,
  find_code,
}
use mailu.OAuth.Grants.{Call, Tokens}
use mailu.OAuth.Endpoint
use mailu.OAuth.Endpoint.{tokens, calculated, user_is_enabled, code_is_valid, exchange}
use mailu.OAuth.Endpoint.Codes.{exchange-issues}
use mailu.OAuth.Authorize.{Site, Response, Request}
use mailu.OAuth.Consent.{Pending, Store, Form, post, code_row, authorize}
use mailu.OAuth.Consent.Waiting.{is_sound, is_waiting}
use mailu.OAuth.Consent.Approved.{Approved, KeepsChoices, authorize-Approved}

sound-client : (site : Site) (r : Request) → is_sound site r ≡ true → r.client ≡ client_id
sound-client site r h = bytes_eq→eq r.client client_id (ground arith)

find_user-email :
    (email : Bytes) (db : Db) (u : User) → find_user email db ≡ some u → u.email ≡ email
unfolding find_user
find_user-email email db u h =
    bytes_eq→eq u.email email (first-eq (λ (v : User). bytes_eq v.email email) db.users h)

find_user-same :
    (email : Bytes) (db db' : Db) → db'.users ≡ db.users → find_user email db' ≡ find_user email db
unfolding find_user
find_user-same email db db' h = ap (λ us. find_user email (record db { users = us })) h

valid_code :
    (crypto : Crypto) (now : ℕ) (form : Endpoint.Form) (row : AuthorizationCode)
    → now < row.expires_at
    → form.redirect_uri ≡ some row.redirect_uri
    → calculated crypto form.code_verifier ≡ row.code_challenge
    → code_is_valid crypto now form row ≡ true
unfolding code_is_valid
valid_code crypto now form row h g e = ground (
  arith,
  lt→ltb now row.expires_at h,
  g,
  e,
  bytes_eq_refl row.redirect_uri,
  bytes_eq_refl row.code_challenge,
)

module _ (site : Site) (crypto : Crypto) (config : Config) (validates : List Bytes → Form → Bool)
    (now : ℕ) (raw_code : Bytes) (form : Form) (user : User) where
  -- behind the theorem below, for what an approval shows
  redeemed :
      (call : Call) (presented : Endpoint.Form) (st st' : Store) (row : AuthorizationCode)
      (p : Pending) (u : User)
      → Approved site crypto now raw_code form user st st' row p u
      → find_code (crypto.code_hash presented.code) st'.db ≡ some row
      → call.now < now + authorization_code_ttl
      → presented.redirect_uri ≡ some row.redirect_uri
      → calculated crypto presented.code_verifier ≡ row.code_challenge
      → (t : Tokens) × (db : Db) × (exchange crypto config call presented st'.db ≡ (tokens t, db))
  unfolding code_row
  redeemed call presented st st' row p u a new early uri challenge =
      let lasts : row.expires_at ≡ now + authorization_code_ttl =
        ap (λ (c : AuthorizationCode). c.expires_at) a.row_written in
      let own : row.client ≡ client_id =
        ap (λ (c : AuthorizationCode). c.client) a.row_written
        ∙ sound-client site p.request a.sound in
      let email : row.user_email ≡ user.email =
        ap (λ (c : AuthorizationCode). c.user_email) a.row_written
        ∙ find_user-email user.email st.db u a.account in
      let found : find_user row.user_email st'.db ≡ some u =
        ap (λ e. find_user e st'.db) email
        ∙ find_user-same user.email st.db st'.db a.same_accounts
        ∙ a.account in
      exchange-issues crypto config call presented st'.db row new own
        (valid_code crypto call.now presented row (omega (arith, early, lasts)) uri challenge)
        (ap user_is_enabled found ∙ a.enabled)

  -- The code of an approval is good: presented within five minutes, with the redirect URI of the row and a
  -- verifier that answers its challenge, it gives tokens, where no row had its hash before the approval.
  pub authorize-redeemed :
      (remembered : Bool) (st st' : Store) (response : Response) (row : AuthorizationCode)
      (call : Call) (presented : Endpoint.Form)
      → KeepsChoices validates
      → is_waiting site st.pending ≡ true
      → find_code (crypto.code_hash presented.code) st.db ≡ none
      → find_code (crypto.code_hash presented.code) st'.db ≡ some row
      → authorize site crypto config validates remembered (some user) now (post form raw_code) st
        ≡ (response, st')
      → call.now < now + authorization_code_ttl
      → presented.redirect_uri ≡ some row.redirect_uri
      → calculated crypto presented.code_verifier ≡ row.code_challenge
      → (t : Tokens) × (db : Db) × (exchange crypto config call presented st'.db ≡ (tokens t, db))
  authorize-redeemed remembered st st' response row call presented keeps waits old new e =
      let (p, u, a) =
        authorize-Approved site crypto config validates now raw_code form user remembered st st'
          response row (crypto.code_hash presented.code) keeps waits old new e in
      redeemed call presented st st' row p u a new
