-- ===== src/OAuth/Consent/Tests.antt =====
-- A browser at the consent page of one user, and the page on single inputs.
use mailu.Prelude.{
  ◌≡◌, refl, Bool, true, false, none, some, List, [], ◌∷◌, all, Bytes, codes, arith, is_digit,
  bytes_eq, member, words, lower, Dict,
}
use mailu.OAuth.{client_id, Crypto, Config, AuthorizationCode, User, Db, find_user, find_code}
use mailu.OAuth.Grants.{Call, Tokens, cleanup_expired_records}
use mailu.OAuth.Authorize.{
  Parsed, Site, Request, Response, aborted, page, redirect, valid_redirect_uri, scope_string,
  validate_authorization_request, validate_rest, valid_parsed, drop_left, drop_right,
  scopes_allowed, join_words, consent_scopes, redirect_with_params,
}
use mailu.Mail.Columns.{sorted_set, insert_item, text_lt}
use mailu.OAuth.Consent.{
  Pending, Store, Form, get, post, authorize, authorize_get, authorize_post, limit_pending,
  posted_id, answer, approve, code_row,
}
use mailu.OAuth.Consent.Waiting.{is_waiting, authorize-waiting}
use mailu.OAuth.Endpoint
use mailu.OAuth.Endpoint.{tokens, calculated, exchange}
use mailu.OAuth.Consent.Redeemed.{authorize-redeemed}
use mailu.OAuth.Consent.Approved.{Approved, authorize-Approved}

abbrev uri : Bytes
uri = codes "http://localhost/"

abbrev parsed : Parsed
parsed = record {
  scheme = codes "http";
  hostname = some (codes "LOCALHOST.");
  port_valid = true;
  username = none;
  password = none;
  fragment = [];
  query = [];
}

abbrev site : Site
site = record {
  urlsplit = λ value. some parsed;
  ip_address = λ host. none;
  issuer = codes "https://mail.test";
  issuer_is_https = true;
}

abbrev crypto : Crypto
crypto = record { mac = λ payload. payload; code_hash = λ code. code; challenge = λ v. v }

abbrev config : Config
config = record { access_token_ttl = 3600; refresh_token_ttl = 86400; refresh_token_idle = 86400 }

abbrev challenge : Bytes
challenge = codes "0123456789012345678901234567890123456789-_A"

abbrev args : Dict Bytes
args =
    (codes "client_id", client_id)
    ∷ (codes "redirect_uri", uri)
    ∷ (codes "response_type", codes "code")
    ∷ (codes "code_challenge", challenge)
    ∷ (codes "code_challenge_method", codes "S256")
    ∷ (codes "scope", codes "smtp imap smtp")
    ∷ []

abbrev alice : User
alice = record {
  email = codes "alice@test";
  enabled = true;
  enable_imap = true;
  enable_pop = false;
}

abbrev request : Request
request = record {
  client = client_id;
  redirect_uri = uri;
  scope = codes "imap smtp";
  code_challenge = challenge;
  state = [];
}

abbrev waiting_store : Store
waiting_store = record {
  pending = (codes "r1", record { request = request; user_email = codes "alice@test" }) ∷ [];
  db = record { code_rows = []; grants = []; users = alice ∷ [] };
}

abbrev empty_store : Store
empty_store = record { pending = []; db = waiting_store.db }

abbrev validates : List Bytes → Form → Bool
validates choices form = all (λ scope. member scope choices) form.selected_scopes

abbrev form : Form
form = record {
  request_id = [];
  selected_scopes = codes "imap" ∷ [];
  deny = false;
  csrf_token = codes "t";
}

abbrev asking : Response × Store
asking =
    authorize site crypto config validates true (some alice) 1000 (get args (codes "r1"))
      empty_store

-- the page lists the scopes in their order, and the request waits
asking_page : asking ≡ (page (codes "imap" ∷ codes "smtp" ∷ []), waiting_store)
unfolding authorize authorize_get validate_authorization_request validate_rest valid_redirect_uri
    valid_parsed drop_left drop_right scopes_allowed scope_string join_words consent_scopes
    limit_pending bytes_eq member words lower sorted_set insert_item text_lt
asking_page = refl

abbrev answered : Response × Store
answered =
    authorize site crypto config validates true (some alice) 1000 (post form (codes "c1"))
      waiting_store

abbrev row : AuthorizationCode
row = record {
  hash = codes "c1";
  user_email = codes "alice@test";
  client = client_id;
  redirect_uri = uri;
  scope = codes "imap";
  code_challenge = challenge;
  expires_at = 1300;
}

answered_row : answered ≡ (
  redirect uri ((codes "code", codes "c1") ∷ (codes "iss", codes "https://mail.test") ∷ []),
  record { pending = []; db = record { code_rows = row ∷ []; grants = []; users = alice ∷ [] } },
)
unfolding authorize authorize_post posted_id answer approve code_row redirect_with_params find_user
    scope_string join_words consent_scopes bytes_eq member words sorted_set insert_item
    cleanup_expired_records
answered_row = refl

-- a request of another user is not answered
stolen :
    authorize site crypto config validates true
      (some (record alice { email = codes "bob@test" }))
      1000
      (post form (codes "c1"))
      waiting_store
    ≡ (aborted 400, waiting_store)
unfolding authorize authorize_post posted_id bytes_eq
stolen = refl

waiting_store-waiting : is_waiting site waiting_store.pending ≡ true
unfolding is_waiting valid_redirect_uri valid_parsed drop_left drop_right bytes_eq lower
waiting_store-waiting = refl

no_row : find_code (codes "c1") waiting_store.db ≡ none
unfolding find_code
no_row = refl

new_row : find_code (codes "c1") (record waiting_store.db { code_rows = row ∷ [] }) ≡ some row
unfolding find_code bytes_eq
new_row = refl

abbrev again : Response × Store
again =
    authorize site crypto config validates true (some alice) 1000 (get args (codes "r1"))
      waiting_store

authorize-waiting_example : is_waiting site again.1.pending ≡ true
authorize-waiting_example =
    authorize-waiting site crypto config validates 1000 true (some alice) (get args (codes "r1"))
      waiting_store waiting_store-waiting

authorize-Approved_example :
    (p : Pending) × (u : User) × Approved site crypto 1000
      (codes "c1")
      form
      alice
      waiting_store
      (record { pending = []; db = record waiting_store.db { code_rows = row ∷ [] } })
      row
      p
      u
authorize-Approved_example =
    authorize-Approved site crypto config validates 1000 (codes "c1") form alice true waiting_store
      (record { pending = []; db = record waiting_store.db { code_rows = row ∷ [] } })
      (redirect uri ((codes "code", codes "c1") ∷ (codes "iss", codes "https://mail.test") ∷ []))
      row (codes "c1") (λ choices f h. h) waiting_store-waiting no_row new_row answered_row

abbrev call : Call
call = record { now = 1200; fresh_id = codes "0123456789012345678901"; agent_name = [] }

abbrev presented : Endpoint.Form
presented = record {
  form_client = some client_id;
  grant_type = some (codes "authorization_code");
  code = codes "c1";
  code_verifier = challenge;
  redirect_uri = some uri;
  refresh_token = [];
}

answers : calculated crypto challenge ≡ challenge
unfolding calculated is_digit
answers = refl

authorize-redeemed_example :
    (t : Tokens) × (db : Db) × (exchange crypto config call presented
        (record waiting_store.db { code_rows = row ∷ [] })
      ≡ (tokens t, db))
authorize-redeemed_example =
    authorize-redeemed site crypto config validates 1000 (codes "c1") form alice true waiting_store
      (record { pending = []; db = record waiting_store.db { code_rows = row ∷ [] } })
      (redirect uri ((codes "code", codes "c1") ∷ (codes "iss", codes "https://mail.test") ∷ []))
      row call presented (λ choices f h. h) waiting_store-waiting no_row new_row answered_row
      (omega arith) refl answers
