-- ===== src/Auth/Nginx.antt =====
-- `check_credentials`, `handle_authentication`, `get_status` and `get_server` of
-- core/admin/mailu/internal/nginx.py.
pub mod Granted
pub mod Request
use mailu.Prelude.{
  Bool, true, false, not, ◌&&◌, ◌||◌, Option, none, some, List, [], ◌∷◌, leb, ◌==◌, if◌then◌else◌,
  length, all, Bytes, codes, bytes_eq, member,
}
use mailu.Mail.{Result, returned, ◌>>=◌}
use mailu.Auth.{Passlib, Account}
use mailu.Auth.Password.{starts, check_password, find_token}

-- what decides beside the account: the sessions of the web mail, `app.config`, and networks
pub record Context : Type 0 where
  -- the session of a temporary token, and the user that it is of
  pub session_of : Bytes → Option Bytes
  pub user_of : Bytes → Bytes
  pub in_networks : Bytes → List Bytes → Bool
  pub auth_require_tokens : Bool
  pub inbound_tls_enforce : Bool
  pub imap_address : Bytes
  pub smtp_address : Bytes
  -- the address of a host name, and of an address itself; none is an exception
  pub resolve_hostname : Bytes → Option Bytes

abbrev pub webmail_ports : List Bytes
webmail_ports = codes "14190" ∷ codes "10143" ∷ codes "10025" ∷ []

-- `utils.is_app_token`
unfoldable pub is_app_token : Bytes → Bool
is_app_token candidate =
    length candidate == 32
    && all (λ c. (leb b'0' c && leb c b'9') || (leb b'a' c && leb c b'f')) candidate

-- `utils.verify_temp_token`
unfoldable pub verify_temp_token : Context → Bytes → Bytes → Bool
verify_temp_token context email token =
    starts (codes "token-") token && elim (context.session_of token) [
      | none ↦ false
      | some sessid ↦ bytes_eq (context.user_of sessid) email
    ]

unfoldable pub is_closed : Bytes → Bytes → Account → Bool
is_closed protocol port user =
    not user.enabled
    || (bytes_eq protocol (codes "imap") && not user.enable_imap && not (member port webmail_ports))
    || (bytes_eq protocol (codes "pop3") && not user.enable_pop)

module _ (passlib : Passlib) (context : Context) where
  -- an application token, matched against those of the user
  unfoldable pub check_app_token : Bytes → Bytes → Account → Bool × Account
  check_app_token password ip user =
      let (found, tokens) = find_token passlib password user.tokens in
      (
        elim found [
          | none ↦ false
          | some token ↦
              (elim token.ip [ [] ↦ true | _ ↦ false ]) || context.in_networks ip token.ip
        ],
        record user { tokens = tokens },
      )

  unfoldable pub check_main_password : Bytes → Bytes → Account → Result (Bool × Account)
  check_main_password password protocol user = do
    (right, after) ← check_password passlib password user
    returned (
      right
          && not (
              context.auth_require_tokens
              && not (member protocol (codes "web" ∷ codes "sso" ∷ []))),
      after,
    )

  -- what an open account asks of the secret
  check_secret : Account → Bytes → Bytes → Bytes → Bytes → Result (Bool × Option Account)
  unfolding check_app_token check_main_password
  check_secret user password ip protocol port =
      if member port webmail_ports && verify_temp_token context user.email password
      then returned (true, some user)
      else if is_app_token password
      then (let (granted, after) = check_app_token password ip user in
          returned (granted, some after))
      else (do
        (granted, after) ← check_main_password password protocol user
        returned (granted, some after))

  unfoldable pub check_credentials :
      Option Account → Bytes → Bytes → Bytes → Bytes → Result (Bool × Option Account)
  unfolding check_secret
  check_credentials none password ip protocol port = returned (false, none)
  check_credentials (some user) password ip protocol port =
      if is_closed protocol port user
      then returned (false, some user)
      else check_secret user password ip protocol port
