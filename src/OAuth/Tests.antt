-- ===== src/OAuth/Tests.antt =====
-- Runs of the OAuth server.
use mailu.Prelude.{
  ℕ, ◌≡◌, refl, ◌∙◌, inl, inr, true, false, none, some, [], ◌∷◌, arith, length, Bytes, codes,
  bytes_eq, decimal, is_digit, decimal-IsDigits, has, member, words,
}
use mailu.OAuth.{
  Crypto, Config, AuthorizationCode, Grant, Db, client_id, find_user, find_grant, put_grant,
  find_code, delete_code, has_offline_access,
}
use mailu.OAuth.Token
use mailu.OAuth.Token.{Kind, access, refresh, payload, is_grant_id}
use mailu.OAuth.Token.RoundTrip.{has-dot_digits, parse-derive}
use mailu.OAuth.Grants.{
  Call, Tokens, new_grant, touch_grant, access_expiry, issue, force_user_reauthentication,
}
use mailu.OAuth.Endpoint.{
  Form, tokens, invalid_grant, calculated, code_is_valid, exchange, is_expired, refresh_tokens,
  revoke,
}
use mailu.OAuth.Endpoint.Rotation.{presented, refresh_tokens_twice}
use mailu.OAuth.Endpoint.Codes.{Exchanged, exchange-Exchanged}
use mailu.OAuth.Endpoint.Histories.{DbIsSound, start, next, forced, revoked, Reach-DbIsSound}
use mailu.OAuth.Introspect.{
  Claims, active, introspect, answer_parsed, protocol_enabled, required_scope, protocol_port,
}
use mailu.OAuth.Introspect.Active.{Active, introspect-Active, introspect_parsed}

abbrev checksum : Bytes → Bytes
checksum p = decimal (length p)

abbrev crypto : Crypto
crypto = record { mac = checksum; code_hash = λ c. c; challenge = λ v. v }

abbrev config : Config
config = record { access_token_ttl = 3600; refresh_token_ttl = 100000; refresh_token_idle = 50000 }

abbrev at : ℕ → Call
at now = record {
  now = now;
  fresh_id = codes "abcdefghij0123456789_+";
  agent_name = codes "Mail app";
}

abbrev sample_id : Bytes
sample_id = codes "abcdefghij0123456789_-"

abbrev scope : Bytes
scope = codes "imap offline_access"

abbrev email : Bytes
email = codes "a@b.c"

abbrev sample_grant : Grant
sample_grant = record {
  grant_id = sample_id;
  user_email = email;
  client = client_id;
  token_generation = 4;
  scope = scope;
  access_expires_at = 1000;
  refresh_expires_at = some 90000;
  client_name = codes "Mail app";
  last_refresh_at = some 500;
}

abbrev verifier : Bytes
verifier = codes "0123456789012345678901234567890123456789012"

abbrev sample_code : AuthorizationCode
sample_code = record {
  hash = codes "code";
  user_email = email;
  client = client_id;
  redirect_uri = codes "http://localhost";
  scope = scope;
  code_challenge = verifier;
  expires_at = 900;
}

abbrev db : Db
db = record {
  code_rows = sample_code ∷ [];
  grants = sample_grant ∷ [];
  users = record { email = email; enabled = true; enable_imap = true; enable_pop = true } ∷ [];
}

abbrev form : Bytes → Form
form refresh_token = record {
  form_client = some client_id;
  grant_type = some (codes "refresh_token");
  code = codes "code";
  code_verifier = verifier;
  redirect_uri = some (codes "http://localhost");
  refresh_token = refresh_token;
}

fits : is_grant_id sample_id ≡ true
unfolding is_grant_id is_digit
fits = refl

mac_dot_free : (p : Bytes) → has b'.' (checksum p) ≡ false
mac_dot_free p = has-dot_digits (decimal (length p)) (decimal-IsDigits (length p))

derived :
    (k : Kind) (n : ℕ)
    → Token.parse checksum (some k) (Token.derive checksum k sample_id n) ≡ some (k, sample_id, n)
derived k n =
    parse-derive checksum k sample_id n fits (mac_dot_free (payload k sample_id n)) (some k)
      (inr refl)

abbrev good : Bytes
good = Token.derive checksum refresh sample_id 4

found : find_grant sample_id db ≡ some sample_grant
unfolding find_grant bytes_eq
found = refl

abbrev refreshed_grant : Grant
refreshed_grant = record sample_grant {
  token_generation = 5;
  access_expires_at = 4200;
  last_refresh_at = some 600;
}

abbrev refreshed : Tokens
refreshed = record {
  access_token = Token.derive checksum access sample_id 5;
  expires_in = 3600;
  token_scope = scope;
  refresh_token = some (Token.derive checksum refresh sample_id 5);
}

abbrev refreshed_db : Db
refreshed_db = record db { grants = refreshed_grant ∷ [] }

refreshes : refresh_tokens crypto config (at 600) (form good) db ≡ (tokens refreshed, refreshed_db)
unfolding refresh_tokens
refreshes = rw (derived refresh 4) (
    unfold find_grant bytes_eq is_expired find_user has_offline_access member words put_grant
      touch_grant access_expiry issue in
    refl)

refresh_tokens_twice_example :
    ((refresh_tokens crypto config (at 601) (form good) refreshed_db).0 ≡ invalid_grant)
    × ((grant_id : Bytes) × (n : ℕ) × (presented crypto config (form good)
          ≡ some (refresh, grant_id, n))
        × (find_grant grant_id (refresh_tokens crypto config (at 601) (form good) refreshed_db).1
            ≡ none))
refresh_tokens_twice_example =
    refresh_tokens_twice crypto config (at 600) (at 601) (form good) db refreshed_db refreshed
      refreshes

abbrev exchanged_grant : Grant
exchanged_grant = record {
  grant_id = codes "abcdefghij0123456789_+";
  user_email = email;
  client = client_id;
  token_generation = 0;
  scope = scope;
  access_expires_at = 4200;
  refresh_expires_at = some 100600;
  client_name = codes "Mail app";
  last_refresh_at = some 600;
}

abbrev exchanged : Tokens
exchanged = record {
  access_token = Token.derive checksum access (codes "abcdefghij0123456789_+") 0;
  expires_in = 3600;
  token_scope = scope;
  refresh_token = some (Token.derive checksum refresh (codes "abcdefghij0123456789_+") 0);
}

abbrev exchanged_db : Db
exchanged_db = record db { code_rows = []; grants = exchanged_grant ∷ sample_grant ∷ [] }

exchanges : exchange crypto config (at 600) (form []) db ≡ (tokens exchanged, exchanged_db)
unfolding exchange find_code bytes_eq code_is_valid calculated is_digit find_user has_offline_access
    member words delete_code new_grant access_expiry issue
exchanges = refl

exchange-Exchanged_example : Exchanged crypto config (at 600) (form []) db exchanged_db
exchange-Exchanged_example =
    exchange-Exchanged crypto config (at 600) (form []) db exchanged_db exchanged exchanges

abbrev claims : Claims
claims = record {
  email = email;
  claimed_client = client_id;
  claimed_scope = scope;
  exp = 1000;
  port = 143;
}

introspected :
    introspect crypto 600 (some (codes "imap")) (Token.derive checksum access sample_id 4) db
    ≡ active claims
introspected =
    introspect_parsed crypto 600 (some (codes "imap")) (Token.derive checksum access sample_id 4) db
      _ (derived access 4) (unfold Token.derive in cc)
    ∙ (unfold answer_parsed find_grant bytes_eq find_user protocol_enabled required_scope member
          words protocol_port in
        refl)

introspect-Active_example :
    Active crypto 600 (some (codes "imap")) (Token.derive checksum access sample_id 4) db
introspect-Active_example =
    introspect-Active crypto 600 (some (codes "imap")) (Token.derive checksum access sample_id 4) db
      claims introspected

revocable : Token.parse checksum none good ≡ some (refresh, sample_id, 4)
revocable =
    parse-derive checksum refresh sample_id 4 fits (mac_dot_free (payload refresh sample_id 4)) none
      (inl refl)

abbrev forced_grant : Grant
forced_grant = record sample_grant { access_expires_at = 700; refresh_expires_at = some 700 }

forced_found : find_grant sample_id (force_user_reauthentication 700 email db) ≡ some forced_grant
unfolding find_grant force_user_reauthentication bytes_eq
forced_found = refl

db_is_sound : DbIsSound db
db_is_sound = record {
  rows = (
    record {
      ordered = λ limit l. ground arith;
      offline = unfold has_offline_access member words bytes_eq in refl;
    },
    tt,
  );
}

Reach-DbIsSound_example :
    DbIsSound (force_user_reauthentication 700 email (revoke crypto none good db).1)
Reach-DbIsSound_example =
    Reach-DbIsSound crypto config db_is_sound
      (next (next start (revoked none good)) (forced 700 email))
