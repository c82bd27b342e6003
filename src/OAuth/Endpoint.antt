-- ===== src/OAuth/Endpoint.antt =====
-- core/admin/mailu/oauth2.py: the handlers of `/token` and `/revoke`. A response is what is sent;
-- a database that the handler does not commit is the one before.
pub mod Codes
pub mod Rotation
pub mod Chain
pub mod Histories
use mailu.Prelude.{
  ℕ, ◌+◌, Bool, true, false, not, ◌&&◌, ◌||◌, Option, none, some, [], ◌∷◌, ltb, leb, ◌==◌,
  if◌then◌else◌, length, all, Bytes, codes, bytes_eq, is_digit,
}
use mailu.OAuth.{
  Crypto, Config, AuthorizationCode, Grant, User, Db, client_id, find_user, find_grant,
  delete_grant, put_grant, find_code, delete_code,
}
use mailu.OAuth.Token
use mailu.OAuth.Token.{Kind, refresh}
use mailu.OAuth.Grants.{Call, Tokens, new_grant, touch_grant, issue}

-- the fields of the form; none is a missing field
pub record Form : Type 0 where
  pub form_client : Option Bytes
  pub grant_type : Option Bytes
  pub code : Bytes
  pub code_verifier : Bytes
  pub redirect_uri : Option Bytes
  pub refresh_token : Bytes

pub data Response : Type 0 where
  tokens : Tokens → Response
  invalid_client invalid_grant unsupported_grant_type : Response
  -- an exception that leaves the handler
  crashed : Response

abbrev pub is_text : Option Bytes → Bytes → Bool
is_text none text = false
is_text (some given) text = bytes_eq given text

abbrev pub verifier_char : ℕ → Bool
verifier_char c =
    (leb b'A' c && leb c b'Z')
    || (leb b'a' c && leb c b'z')
    || is_digit c
    || c == b'-'
    || c == b'.'
    || c == b'_'
    || c == b'~'

-- the challenge that the presented verifier answers; a malformed one answers the empty challenge
unfoldable pub calculated : Crypto → Bytes → Bytes
calculated crypto verifier =
    if leb 43 (length verifier) && leb (length verifier) 128 && all verifier_char verifier
    then crypto.challenge verifier
    else []

unfoldable pub code_is_valid : Crypto → ℕ → Form → AuthorizationCode → Bool
code_is_valid crypto now form record_row =
    ltb now record_row.expires_at
    && is_text form.redirect_uri record_row.redirect_uri
    && bytes_eq (calculated crypto form.code_verifier) record_row.code_challenge

abbrev pub user_is_enabled : Option User → Bool
user_is_enabled none = false
user_is_enabled (some u) = u.enabled

-- `_issue_tokens` for a new grant, after the code is deleted; an exception rolls both back
issue_new : Crypto → Config → Call → Db → AuthorizationCode → Bytes → Response × Db
unfolding issue new_grant
issue_new crypto config call db record_row email =
    elim (issue crypto config call record_row.scope
      (new_grant config call email client_id record_row.scope)) [
        | none ↦ (crashed, db)
        | some (issued, g) ↦
            (tokens issued, record (delete_code record_row.hash db) { grants = g ∷ db.grants })
      ]

exchange_row : Crypto → Config → Call → Form → Db → Option AuthorizationCode → Response × Db
unfolding issue_new
exchange_row crypto config call form db none = (invalid_grant, db)
exchange_row crypto config call form db (some row) =
    if not (code_is_valid crypto call.now form row)
    then (invalid_grant, db)
    else if not (user_is_enabled (find_user row.user_email db))
    then (invalid_grant, delete_code row.hash db)
    else issue_new crypto config call db row row.user_email

-- the filter on `client_id` beside the key
abbrev pub code_of_client : Option AuthorizationCode → Option AuthorizationCode
code_of_client none = none
code_of_client (some row) = if bytes_eq row.client client_id then some row else none

-- `grant_type == 'authorization_code'`
unfoldable pub exchange : Crypto → Config → Call → Form → Db → Response × Db
unfolding exchange_row
exchange crypto config call form db =
    exchange_row crypto config call form db
      (code_of_client (find_code (crypto.code_hash form.code) db))

-- why a refresh is refused although its token is good; the source subtracts the refresh lifetime
-- from an old row's expiry, and the model adds it on the other side
unfoldable pub is_expired : Config → ℕ → Grant → Bool
is_expired config now g = elim g.refresh_expires_at [
  | none ↦ true
  | some limit ↦ leb limit now || elim g.last_refresh_at [
    | none ↦ leb (limit + config.refresh_token_idle) (now + config.refresh_token_ttl)
    | some last_use ↦ leb (last_use + config.refresh_token_idle) now
  ]
]

-- a refresh whose generation is the grant's
refresh_current : Crypto → Config → Call → Db → Grant → Response × Db
unfolding issue touch_grant
refresh_current crypto config call db g =
    if is_expired config call.now g
    then (invalid_grant, delete_grant g.grant_id db)
    else if not (user_is_enabled (find_user g.user_email db))
    then (invalid_grant, delete_grant g.grant_id db)
    else elim (issue crypto config call g.scope
        (touch_grant call (record g { token_generation = g.token_generation + 1 }))) [
          | none ↦ (crashed, db)
          | some (issued, h) ↦ (tokens issued, put_grant h db)
        ]

pub refresh_row : Crypto → Config → Call → Db → ℕ → Option Grant → Response × Db
unfolding refresh_current
refresh_row crypto config call db generation none = (invalid_grant, db)
refresh_row crypto config call db generation (some g) =
    if ltb generation g.token_generation
    then (invalid_grant, delete_grant g.grant_id db)
    else if not (generation == g.token_generation)
    then (invalid_grant, db)
    else refresh_current crypto config call db g

abbrev pub of_client : Option Grant → Option Grant
of_client none = none
of_client (some g) = if bytes_eq g.client client_id then some g else none

refresh_parsed : Crypto → Config → Call → Db → Option (Kind × Bytes × ℕ) → Response × Db
unfolding refresh_row
refresh_parsed crypto config call db none = (invalid_grant, db)
refresh_parsed crypto config call db (some (kind, grant_id, generation)) =
    refresh_row crypto config call db generation (of_client (find_grant grant_id db))

-- `grant_type == 'refresh_token'`
unfoldable pub refresh_tokens : Crypto → Config → Call → Form → Db → Response × Db
unfolding refresh_parsed
refresh_tokens crypto config call form db =
    refresh_parsed crypto config call db (Token.parse crypto.mac (some refresh) form.refresh_token)

unfoldable pub token : Crypto → Config → Call → Form → Db → Response × Db
unfolding exchange refresh_tokens
token crypto config call form db =
    if not (is_text form.form_client client_id)
    then (invalid_client, db)
    else if is_text form.grant_type (codes "authorization_code")
    then exchange crypto config call form db
    else if is_text form.grant_type (codes "refresh_token")
    then refresh_tokens crypto config call form db
    else (unsupported_grant_type, db)

-- the grant of a presented token, whichever client it is of
revoke_parsed : Option (Kind × Bytes × ℕ) → Db → Db
revoke_parsed none db = db
revoke_parsed (some (kind, grant_id, generation)) db = delete_grant grant_id db

-- true is the empty answer 200, false is `invalid_client`
unfoldable pub revoke : Crypto → Option Bytes → Bytes → Db → Bool × Db
unfolding revoke_parsed
revoke crypto form_client presented db =
    if not (is_text form_client client_id)
    then (false, db)
    else (true, revoke_parsed (Token.parse crypto.mac none presented) db)
