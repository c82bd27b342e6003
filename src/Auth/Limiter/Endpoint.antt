-- ===== src/Auth/Limiter/Endpoint.antt =====
-- `nginx_authentication` of core/admin/mailu/internal/views/auth.py: the answers to the mail proxy,
-- under the rate limits.
pub mod Limited
use mailu.Prelude.{
  Bool, false, not, ◌&&◌, Option, none, some, List, [], ◌∷◌, if◌then◌else◌, Bytes, codes, bytes_eq,
  member,
}
use mailu.Mail.{Result, returned, ◌>>=◌, Idna}
use mailu.Auth.{Passlib, Account}
use mailu.Auth.Nginx.{Context, is_app_token}
use mailu.Auth.Nginx.Request.{Request, Reply, ratelimit, rejected, handle_authentication}
use mailu.Auth.Limiter.{
  Limits, Policy, exempt_ip_from_ratelimits, should_rate_limit_ip, rate_limit_ip,
  should_rate_limit_user, rate_limit_user,
}

-- a request, with its password as it was sent and the address of the client
pub record Call : Type 0 where
  pub request : Request
  pub raw_pass : Bytes
  pub client_ip : Bytes

abbrev pub not_supported : Reply
not_supported = record {
  status = codes "AUTH not supported";
  error_code = some (codes "502 5.5.1");
  server = none;
  user = none;
}

unfoldable pub is_port_25 : Call → Bool
is_port_25 call = bytes_eq call.request.port (codes "25")

unfoldable pub is_from_webmail : Call → Bool
is_from_webmail call = member call.request.port (codes "10143" ∷ codes "10025" ∷ [])

abbrev pub names_user : Option (Bytes × Bool) → Bool
names_user none = false
names_user (some (username, exists)) = exists

-- the answer of a rate limit, which changes nothing
refuse {ℓ} : {S : Type ℓ} → Call → List Account → S → Result (Reply × List Account × S)
refuse call accounts s = do
  refusal ← rejected call.request.protocol ratelimit none
  returned (refusal, accounts, s)

module _ {ℓ} {S : Type ℓ} (limits : Limits S) (policy : Policy) where
  -- what is counted after a login; the answer holds no password, so that the limiter is given an
  -- empty one
  unfoldable pub count_login : Call → Reply → Bool → S → S
  count_login call reply is_valid_user s =
      if bytes_eq reply.status (codes "OK")
      then (if is_port_25 call then s else exempt_ip_from_ratelimits limits policy call.client_ip s)
      else elim reply.user [
        | none ↦
            if is_from_webmail call then s else rate_limit_ip limits policy call.client_ip none s
        | some (username, exists) ↦
            if is_valid_user
            then rate_limit_user limits policy username call.client_ip none [] s
            else if is_from_webmail call
            then s
            else rate_limit_ip limits policy call.client_ip (some username) s
      ]

  unfoldable pub user_limited : Call → Option (Bytes × Bool) → S → Bool
  user_limited call none s = false
  user_limited call (some (username, exists)) s =
      exists
      && not (is_from_webmail call)
      && not (is_app_token call.raw_pass)
      && should_rate_limit_user limits policy username call.client_ip none s

  unfoldable pub answer_login : Call → S → Reply × List Account → Result (Reply × List Account × S)
  unfolding user_limited refuse
  answer_login call s (reply, accounts) =
      if user_limited call reply.user s
      then refuse call accounts s
      else returned (reply, accounts, count_login call reply (names_user reply.user) s)

  unfoldable pub ip_limited : Call → S → Bool
  ip_limited call s =
      not (is_from_webmail call)
      && not (is_port_25 call)
      && not (is_app_token call.raw_pass)
      && should_rate_limit_ip limits policy call.client_ip s

  module _ (idna : Idna) (passlib : Passlib) (context : Context) where
    unfoldable pub nginx_authentication :
        Call → List Account → S → Result (Reply × List Account × S)
    unfolding refuse
    nginx_authentication call accounts s =
        if is_port_25 call && not (bytes_eq call.request.method (codes "none"))
        then returned (not_supported, accounts, rate_limit_ip limits policy call.client_ip none s)
        else if ip_limited call s
        then refuse call accounts s
        else (do
          handled ← handle_authentication idna passlib context call.request accounts
          answer_login call s handled)
