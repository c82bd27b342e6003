-- ===== src/OAuth/Consent.antt =====
-- `authorize` of core/admin/mailu/oauth2.py, with the requests that wait in the session for an answer.
-- What the form accepts for its choices, what `signin.remember` answers and the random identifiers are
-- arguments; a page is its choices.
pub mod Waiting
pub mod Approved
pub mod Redeemed
mod Tests
use mailu.Prelude.{
  ℕ, ◌+◌, Bool, not, Option, none, some, List, [], ◌∷◌, ltb, if◌then◌else◌, length, any, Bytes,
  codes, bytes_eq, words, Dict, get_item, set_item, del_item,
}
use mailu.OAuth.{authorization_code_ttl, Crypto, Config, AuthorizationCode, User, Db, find_user}
use mailu.OAuth.Grants.{cleanup_expired_records}
use mailu.OAuth.Authorize.{
  Site, Request, Response, sign_in, aborted, page, refused, accepted, is_resource, scope_string,
  consent_scopes, redirect_with_params, with_state, validate_authorization_request,
}

pub record Pending : Type 0 where
  pub request : Request
  pub user_email : Bytes

-- `while len(pending) > 5`: the oldest go
unfoldable pub limit_pending : Dict Pending → Dict Pending
limit_pending [] = []
limit_pending (item ∷ items) =
    let rest = limit_pending items in if ltb 5 (length (item ∷ items)) then rest else item ∷ items

-- `authorize` of an enabled user, GET
unfoldable pub authorize_get :
    Site → Dict Bytes → Bytes → User → Dict Pending → Response × Dict Pending
unfolding validate_authorization_request limit_pending consent_scopes redirect_with_params
authorize_get site args request_id user pending = elim (validate_authorization_request site args) [
  | refused response ↦ (response, pending)
  | accepted request ↦
      let p : Pending = record { request = request; user_email = user.email } in
      let added = limit_pending (set_item request_id p pending) in
      let scopes = consent_scopes (words request.scope) user in
      if not (any is_resource scopes)
      then (
        redirect_with_params site request.redirect_uri
            (with_state request.state (codes "error", codes "invalid_scope")),
        del_item request_id added,
      )
      else (page scopes, added)
]

-- a submitted form; `valid` is the rest of what `validate_on_submit` looks at
pub record Form : Type 0 where
  pub request_id : Bytes
  pub selected_scopes : List Bytes
  pub deny : Bool
  pub csrf_token : Bytes

-- an older form may leave the id out where one request is waiting
unfoldable pub posted_id : Bytes → Dict Pending → Bytes
posted_id [] ((id, p) ∷ []) = id
posted_id [] pending = []
posted_id (c ∷ cs) pending = c ∷ cs

-- what the view keeps
pub record Store : Type 0 where
  pub pending : Dict Pending
  pub db : Db

abbrev denied : Site → Bytes → Request → Store → Response × Store
denied site id r st = (
  redirect_with_params site r.redirect_uri
      (with_state r.state (codes "error", codes "access_denied")),
  record st { pending = del_item id st.pending },
)

-- the row of an approved code
unfoldable pub code_row : Crypto → ℕ → Bytes → List Bytes → User → Request → AuthorizationCode
unfolding scope_string
code_row crypto now raw_code selected user r = record {
  hash = crypto.code_hash raw_code;
  user_email = user.email;
  client = r.client;
  redirect_uri = r.redirect_uri;
  scope = scope_string selected;
  code_challenge = r.code_challenge;
  expires_at = now + authorization_code_ttl;
}

abbrev pub add_code : AuthorizationCode → Db → Db
add_code row db = record db { code_rows = row ∷ db.code_rows }

-- the answer of an enabled user, for the account that the table then has
unfoldable pub approve :
    Site → Crypto → Config → ℕ → Bytes → Form → User → Bytes → Request → Store → Response × Store
unfolding code_row redirect_with_params
approve site crypto config now raw_code form user id r st = (
  redirect_with_params site r.redirect_uri (with_state r.state (codes "code", raw_code)),
  record {
    pending = del_item id st.pending;
    db =
        add_code (code_row crypto now raw_code form.selected_scopes user r)
          (cleanup_expired_records config now st.db).0;
  },
)

-- the form of a waiting request; `validates` is `validate_on_submit` for the choices
unfoldable pub answer :
    Site
    → Crypto
    → Config
    → (List Bytes → Form → Bool)
    → ℕ
    → Bytes
    → Form
    → User
    → Bytes
    → Request
    → Store
    → Response × Store
unfolding approve consent_scopes redirect_with_params
answer site crypto config validates now raw_code form user id r st =
    let choices = consent_scopes (words r.scope) user in
    if not (validates choices form)
    then (page choices, st)
    else if form.deny
    then denied site id r st
    else if not (any is_resource form.selected_scopes)
    then (page choices, st)
    else elim (find_user user.email st.db) [
      | none ↦ denied site id r st
      | some u ↦
          let approved = approve site crypto config now raw_code form u id r st in
          if not u.enabled then denied site id r st else approved
    ]

-- `authorize` of an enabled user, POST
unfoldable pub authorize_post :
    Site
    → Crypto
    → Config
    → (List Bytes → Form → Bool)
    → ℕ
    → Bytes
    → Form
    → User
    → Store
    → Response × Store
unfolding answer posted_id
authorize_post site crypto config validates now raw_code form user st =
    let id = posted_id form.request_id st.pending in
    elim (get_item id st.pending) [
      | none ↦ (aborted 400, st)
      | some p ↦
          let answered =
            answer site crypto config validates now raw_code form user id p.request st in
          if not (bytes_eq p.user_email user.email) then (aborted 400, st) else answered
    ]

-- a request to the page, with the random text that it may need
pub data Method : Type 0 where
  get : (args : Dict Bytes) (request_id : Bytes) → Method
  post : (form : Form) (raw_code : Bytes) → Method

-- `authorize`; `remembered` is what `signin.remember` answers, and `current` the user of the session
unfoldable pub authorize :
    Site
    → Crypto
    → Config
    → (List Bytes → Form → Bool)
    → Bool
    → Option User
    → ℕ
    → Method
    → Store
    → Response × Store
unfolding authorize_get authorize_post
authorize site crypto config validates remembered none now method st =
    (if remembered then sign_in else aborted 400, st)
authorize site crypto config validates remembered (some user) now (get args request_id) st =
    let (response, pending) = authorize_get site args request_id user st.pending in
    if not user.enabled then (aborted 403, st) else (response, record st { pending = pending })
authorize site crypto config validates remembered (some user) now (post form raw_code) st =
    let done = authorize_post site crypto config validates now raw_code form user st in
    if not user.enabled then (aborted 403, st) else done
