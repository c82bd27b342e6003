-- ===== src/Auth/Nginx/Request.antt =====
-- `handle_authentication` of core/admin/mailu/internal/nginx.py: a request of nginx's mail proxy.
pub mod Handled
use mailu.Prelude.{
  ℕ, Bool, true, false, not, ◌&&◌, Option, none, some, List, [], ◌∷◌, map, if◌then◌else◌, is_some,
  first, Bytes, codes, bytes_eq, has, member, lower,
}
use mailu.Mail.{Result, raised, returned, ◌>>=◌, Idna, bind_email}
use mailu.Auth.{Passlib, Account}
use mailu.Auth.Nginx.{Context, check_credentials}

-- The headers. The user is unquoted, and so are the password and the address of the client; none is a
-- missing header.
pub record Request : Type 0 where
  pub method : Bytes
  pub protocol : Bytes
  pub user : Option Bytes
  pub secret : Option (Bytes × Bytes)
  pub port : Bytes
  pub ssl : Option Bytes

-- the headers of the answer
pub record Reply : Type 0 where
  pub status : Bytes
  pub error_code : Option Bytes
  pub server : Option (Bytes × ℕ)
  pub user : Option (Bytes × Bool)

pub data Failure : Type 0 where
  authentication encryption ratelimit : Failure

abbrev pub message : Failure → Bytes
message authentication = codes "Authentication credentials invalid"
message encryption = codes "Must issue a STARTTLS command first"
message ratelimit = codes "Temporary authentication failure (rate-limit)"

-- the codes of STATUSES
abbrev imap_code : Failure → Bytes
imap_code authentication = codes "AUTHENTICATIONFAILED"
imap_code encryption = codes "PRIVACYREQUIRED"
imap_code ratelimit = codes "LIMIT"

abbrev smtp_code : Failure → Bytes
smtp_code authentication = codes "535 5.7.8"
smtp_code encryption = codes "530 5.7.0"
smtp_code ratelimit = codes "451 4.3.2"

abbrev pop3_code : Failure → Bytes
pop3_code authentication = codes "-ERR Authentication failed"
pop3_code encryption = codes "-ERR Authentication canceled."
pop3_code ratelimit = codes "-ERR [LOGIN-DELAY] Retry later"

abbrev sieve_code : Failure → Bytes
sieve_code authentication = codes "AuthFailed"
sieve_code encryption = codes "ENCRYPT-NEEDED"
sieve_code ratelimit = codes "AuthFailed"

-- another protocol is a KeyError
unfoldable pub get_status : Bytes → Failure → Result (Bytes × Bytes)
get_status protocol failure =
    if bytes_eq protocol (codes "imap")
    then returned (message failure, imap_code failure)
    else if member protocol (codes "smtp" ∷ codes "submission" ∷ codes "lmtp" ∷ [])
    then returned (message failure, smtp_code failure)
    else if bytes_eq protocol (codes "pop3")
    then returned (message failure, pop3_code failure)
    else if bytes_eq protocol (codes "sieve")
    then returned (message failure, sieve_code failure)
    else raised

unfoldable pub server_of : Context → Bytes → Bool → Option (Bytes × ℕ)
server_of context protocol authenticated =
    if bytes_eq protocol (codes "imap")
    then some (context.imap_address, 143)
    else if bytes_eq protocol (codes "pop3")
    then some (context.imap_address, 110)
    else if bytes_eq protocol (codes "smtp")
    then some (context.smtp_address, if authenticated then 10025 else 25)
    else if bytes_eq protocol (codes "submission")
    then some (context.imap_address, 2587)
    else if bytes_eq protocol (codes "lmtp")
    then some (context.imap_address, 2525)
    else if bytes_eq protocol (codes "sieve")
    then some (context.imap_address, 4190)
    else none

-- another protocol leaves the host unbound
unfoldable pub get_server : Context → Bytes → Bool → Result (Bytes × ℕ)
get_server context protocol authenticated = elim (server_of context protocol authenticated) [
  | none ↦ raised
  | some (hostname, port) ↦ elim (context.resolve_hostname hostname) [
    | none ↦ raised
    | some address ↦ returned (address, port)
  ]
]

abbrev accepted : Bytes × ℕ → Option (Bytes × Bool) → Reply
accepted server user = record {
  status = codes "OK";
  error_code = none;
  server = some server;
  user = user;
}

unfoldable pub rejected : Bytes → Failure → Option (Bytes × Bool) → Result Reply
rejected protocol failure user = do
  (status, code) ← get_status protocol failure
  returned (record { status = status; error_code = some code; server = none; user = user })

abbrev put_account : Account → List Account → List Account
put_account a accounts = map (λ (b : Account). if bytes_eq b.email a.email then a else b) accounts

abbrev put_checked : Option Account → List Account → List Account
put_checked none accounts = accounts
put_checked (some a) accounts = put_account a accounts

abbrev is_on : Option Bytes → Bool
is_on none = false
is_on (some text) = bytes_eq text (codes "on")

-- the answer to credentials that cannot be read, or of a user that cannot be looked up
unreadable : Request → List Account → Bytes → Result (Reply × List Account)
unreadable request accounts user_email = do
  reply ← rejected (lower request.protocol) authentication (some (user_email, false))
  returned (reply, accounts)

module _ (context : Context) where
  -- mail that comes in, without authentication
  unfoldable pub handle_incoming : Bytes → Option Bytes → Result Reply
  handle_incoming protocol ssl = do
    server ← get_server context protocol false
    (if context.inbound_tls_enforce && bytes_eq protocol (codes "smtp") && not (is_on ssl)
        then rejected protocol encryption none
        else returned (accepted server none))

  unfoldable pub accept_user : Request → Bytes × Bool → Result Reply
  accept_user request user = do
    server ← get_server context request.protocol true
    returned (accepted server (some user))

module _ (idna : Idna) where
  -- `db.session.get(User, user_email) if '@' in user_email else None`, a StatementError left in it
  unfoldable pub find_account : Bytes → List Account → Result (Option Account)
  find_account user_email accounts =
      if has b'@' user_email
      then (do
        key ← bind_email idna user_email
        returned (first (λ (a : Account). bytes_eq a.email key) accounts))
      else returned none

module _ (passlib : Passlib) (context : Context) where
  unfoldable pub handle_user :
      Request
      → List Account
      → Bytes
      → Bytes × Bytes
      → Option Account
      → Result (Reply × List Account)
  handle_user request accounts user_email (password, ip) user = do
    (granted, after) ←
        check_credentials passlib context user password ip (lower request.protocol) request.port
    reply ←
        (if granted
          then accept_user context request (user_email, is_some user)
          else rejected (lower request.protocol) authentication (some (user_email, is_some user)))
    returned (reply, put_checked after accounts)

module _ (idna : Idna) (passlib : Passlib) (context : Context) where
  login_user : Request → List Account → Bytes → Bytes × Bytes → Result (Reply × List Account)
  unfolding unreadable
  login_user request accounts user_email secret = elim (find_account idna user_email accounts) [
    | raised ↦ unreadable request accounts user_email
    | returned user ↦ handle_user passlib context request accounts user_email secret user
  ]

  unfoldable pub handle_login : Request → List Account → Result (Reply × List Account)
  unfolding login_user unreadable
  handle_login request accounts = elim request.user [
    | none ↦ unreadable request accounts (codes "invalid")
    | some user_email ↦ elim request.secret [
      | none ↦ unreadable request accounts user_email
      | some secret ↦ login_user request accounts user_email secret
    ]
  ]

  unfoldable pub handle_authentication : Request → List Account → Result (Reply × List Account)
  handle_authentication request accounts =
      let method = lower request.method in
      let protocol = lower request.protocol in
      if member method ([] ∷ codes "none" ∷ [])
        && member protocol (codes "smtp" ∷ codes "lmtp" ∷ [])
      then (do reply ← handle_incoming context protocol request.ssl; returned (reply, accounts))
      else if member method (codes "plain" ∷ codes "login" ∷ [])
      then handle_login request accounts
      else raised
