-- ===== src/Auth/Tests.antt =====
-- Runs of logins with a plain hash, and the theorems at them.
use mailu.Prelude.{
  ◌≡◌, refl, true, false, not, none, some, List, [], ◌∷◌, ◌++◌, length, filter, Bytes, codes,
  bytes_eq, split_on, has, member, rsplit, count, lower,
}
use mailu.Mail.{returned, Idna, bind_email, convert_email}
use mailu.Auth.{Passlib, Account}
use mailu.Auth.Password.{
  fourth, current_salt, starts, behind_brace, reference, verify_stored, check_password, check_token,
  find_token,
}
use mailu.Auth.Nginx.{
  Context, is_app_token, verify_temp_token, is_closed, check_app_token, check_main_password,
  check_credentials,
}
use mailu.Auth.Nginx.Request.{
  Request, Reply, get_status, server_of, get_server, rejected, handle_incoming, accept_user,
  find_account, handle_user, handle_login, handle_authentication,
}
use mailu.Auth.Nginx.Request.Handled.{Accepted, handle_authentication-Accepted}
use mailu.Auth.Limiter.{
  auth_ip, auth_user, Limits, Policy, is_subject_to_rate_limits, exempt_ip_from_ratelimits,
  should_rate_limit_ip, rate_limit_ip, should_rate_limit_user, rate_limit_user,
}
use mailu.Auth.Limiter.Endpoint.{
  Call, is_port_25, is_from_webmail, count_login, user_limited, answer_login, ip_limited,
  nginx_authentication,
}
use mailu.Auth.Limiter.Endpoint.Limited.{
  SubjectToLimits, nginx_authentication-Accepted, nginx_authentication-counts,
}

abbrev passlib : Passlib
passlib = record {
  verify_and_update = λ password hash. (bytes_eq hash (codes "$b$v$salt$" ++ password), none);
  pbkdf2_verify = λ password hash. bytes_eq hash (b'h' ∷ password);
  pbkdf2_hash = λ password. b'h' ∷ password;
  sha256_verify = λ password hash. false;
}

abbrev idna : Idna
idna = record { encode = λ d. some d; decode = λ k. some k }

abbrev context : Context
context = record {
  session_of = λ token. none;
  user_of = λ sessid. [];
  in_networks = λ ip networks. false;
  auth_require_tokens = false;
  inbound_tls_enforce = false;
  imap_address = codes "imap";
  smtp_address = codes "smtp";
  resolve_hostname = λ name. some name;
}

abbrev ann : Account
ann = record {
  email = codes "ann@ex.org";
  enabled = true;
  enable_imap = true;
  enable_pop = false;
  password = codes "$b$v$salt$key";
  cached = none;
  tokens = [];
}

abbrev ann_cached : Account
ann_cached = record ann { cached = some (codes "salt", codes "hkey") }

abbrev ann_stale : Account
ann_stale = record ann { cached = some (codes "old", codes "hold") }

abbrev request : Request
request = record {
  method = codes "plain";
  protocol = codes "imap";
  user = some (codes "Ann@ex.org");
  secret = some (codes "key", codes "10.0.0.1");
  port = codes "143";
  ssl = none;
}

abbrev welcome : Reply
welcome = record {
  status = codes "OK";
  error_code = none;
  server = some (codes "imap", 143);
  user = some (codes "Ann@ex.org", true);
}

abbrev wrong : Request
wrong = record request { secret = some (codes "no", codes "10.0.0.1") }

abbrev sorry : Reply
sorry = record {
  status = codes "Authentication credentials invalid";
  error_code = some (codes "AUTHENTICATIONFAILED");
  server = none;
  user = some (codes "Ann@ex.org", true);
}

-- the keys that were counted
abbrev limits : Limits (List Bytes)
limits = record {
  get = λ key s. length (filter (bytes_eq key) s);
  incr = λ key n s. key ∷ s;
  clear = λ key s. filter (λ k. not (bytes_eq key k)) s;
  test = λ l key s. true;
  hit = λ l key s. key ∷ s;
}

abbrev policy : Policy
policy = record {
  is_exempt = λ ip. false;
  normalize_ip = λ ip. ip;
  network_of = λ ip. ip;
  exemption_length = 60;
  ip_granularity = 60;
  user_granularity = 60;
  truncated_mac = λ name password. password;
}

abbrev call : Call
call = record { request = request; raw_pass = codes "key"; client_ip = codes "10.0.0.1" }

abbrev wrong_call : Call
wrong_call = record { request = wrong; raw_pass = codes "no"; client_ip = codes "10.0.0.1" }

accepted_login :
    handle_authentication idna passlib context request (ann ∷ [])
    ≡ returned (welcome, ann_cached ∷ [])
unfolding bytes_eq has member split_on count rsplit lower bind_email convert_email fourth
    current_salt starts behind_brace reference verify_stored check_password check_token find_token
    is_app_token verify_temp_token is_closed check_app_token check_main_password check_credentials
    get_status server_of get_server rejected handle_incoming accept_user find_account handle_user
    handle_login handle_authentication is_subject_to_rate_limits exempt_ip_from_ratelimits
    should_rate_limit_ip rate_limit_ip should_rate_limit_user rate_limit_user is_port_25
    is_from_webmail count_login user_limited answer_login ip_limited nginx_authentication
accepted_login = refl

failed_login :
    handle_authentication idna passlib context wrong (ann ∷ []) ≡ returned (sorry, ann ∷ [])
unfolding bytes_eq has member split_on count rsplit lower bind_email convert_email fourth
    current_salt starts behind_brace reference verify_stored check_password check_token find_token
    is_app_token verify_temp_token is_closed check_app_token check_main_password check_credentials
    get_status server_of get_server rejected handle_incoming accept_user find_account handle_user
    handle_login handle_authentication is_subject_to_rate_limits exempt_ip_from_ratelimits
    should_rate_limit_ip rate_limit_ip should_rate_limit_user rate_limit_user is_port_25
    is_from_webmail count_login user_limited answer_login ip_limited nginx_authentication
failed_login = refl

handle_authentication-Accepted_example : Accepted idna passlib context request (ann ∷ [])
handle_authentication-Accepted_example =
    handle_authentication-Accepted idna passlib context request (ann ∷ []) welcome (ann_cached ∷ [])
      accepted_login refl

subject : SubjectToLimits limits policy call []
unfolding bytes_eq
subject = record {
  no_webmail = refl;
  no_sending = refl;
  no_port_25 = refl;
  no_token = refl;
  no_exemption = refl;
  unknown = refl;
}

nginx_authentication-Accepted_example :
    (limits.test auth_ip (codes "10.0.0.1") [] ≡ true)
    × ((username : Bytes)
        → welcome.user ≡ some (username, true)
        → limits.test auth_user username [] ≡ true)
    × ((codes "exempt-10.0.0.1" ∷ []) ≡ (codes "exempt-10.0.0.1" ∷ []))
unfolding bytes_eq has member split_on count rsplit lower bind_email convert_email fourth
    current_salt starts behind_brace reference verify_stored check_password check_token find_token
    is_app_token verify_temp_token is_closed check_app_token check_main_password check_credentials
    get_status server_of get_server rejected handle_incoming accept_user find_account handle_user
    handle_login handle_authentication is_subject_to_rate_limits exempt_ip_from_ratelimits
    should_rate_limit_ip rate_limit_ip should_rate_limit_user rate_limit_user is_port_25
    is_from_webmail count_login user_limited answer_login ip_limited nginx_authentication
nginx_authentication-Accepted_example =
    nginx_authentication-Accepted limits policy idna passlib context call (ann ∷ []) [] welcome
      (ann_cached ∷ []) (codes "exempt-10.0.0.1" ∷ []) refl refl subject

-- what is counted of a failed login, after the same failure
abbrev counted : List Bytes
counted =
    codes "10.0.0.1"
    ∷ codes "dedup-10.0.0.1-Ann@ex.org"
    ∷ codes "Ann@ex.org"
    ∷ codes "dedup2-Ann@ex.org-"
    ∷ []

nginx_authentication-counts_example :
    (codes "Ann@ex.org" ∷ codes "dedup2-Ann@ex.org-" ∷ counted)
    ≡ rate_limit_ip limits policy (codes "10.0.0.1") (some (codes "Ann@ex.org")) (
        limits.hit auth_user
          (codes "Ann@ex.org")
          (limits.incr (codes "dedup2-Ann@ex.org-") 60 counted))
unfolding bytes_eq has member split_on count rsplit lower bind_email convert_email fourth
    current_salt starts behind_brace reference verify_stored check_password check_token find_token
    is_app_token verify_temp_token is_closed check_app_token check_main_password check_credentials
    get_status server_of get_server rejected handle_incoming accept_user find_account handle_user
    handle_login handle_authentication is_subject_to_rate_limits exempt_ip_from_ratelimits
    should_rate_limit_ip rate_limit_ip should_rate_limit_user rate_limit_user is_port_25
    is_from_webmail count_login user_limited answer_login ip_limited nginx_authentication
nginx_authentication-counts_example =
    nginx_authentication-counts limits policy idna passlib context wrong_call (ann ∷ []) counted
      sorry (ann ∷ []) (codes "Ann@ex.org" ∷ codes "dedup2-Ann@ex.org-" ∷ counted)
      (codes "Ann@ex.org") refl refl refl refl
