-- ===== src/Auth/Limiter/Endpoint/Limited.antt =====
-- The mail proxy under the rate limits.
use mailu.Prelude.{
  length, member, ◌==◌, ◌≡◌, sym, ap, ◌∙◌, ◌≢◌, ◌⊎◌, inl, inr, Bool, true, false, not, ◌&&◌, Option,
  none, some, List, [], ◌∷◌, ◌++◌, arith, if◌then◌else◌, Bool-cases, Bytes, codes, bytes_eq,
  bytes_eq_refl,
}
use mailu.Mail.{returned, Idna, bind_inverse}
use mailu.Auth.{Passlib, Account}
use mailu.Auth.Nginx.{Context, is_app_token}
use mailu.Auth.Nginx.Granted.{if_false}
use mailu.Auth.Nginx.Request.{
  Reply, Failure, ratelimit, get_status, rejected, handle_authentication,
}
use mailu.Auth.Nginx.Request.Handled.{rejected-ne-ok}
use mailu.Auth.Limiter.{
  Limits, Policy, should_rate_limit_ip, should_rate_limit_user, auth_ip, auth_user,
  is_subject_to_rate_limits, exempt_ip_from_ratelimits, rate_limit_ip, rate_limit_user,
}
use mailu.Auth.Limiter.Endpoint.{
  Call, not_supported, is_from_webmail, is_port_25, count_login, user_limited, names_user, refuse,
  answer_login, ip_limited, nginx_authentication,
}

rejected-user :
    (protocol : Bytes) (failure : Failure) (user : Option (Bytes × Bool)) (reply : Reply)
    → rejected protocol failure user ≡ returned reply
    → reply.user ≡ user
unfolding rejected
rejected-user protocol failure user reply h =
    let (found, made, same) = bind_inverse (get_status protocol failure) _ h in ground arith

if_true {ℓ} :
    {A : Type ℓ} (b : Bool) (y : A) {x z : A} → b ≡ true → (if b then x else y) ≡ z → x ≡ z
if_true true y e h = h
if_true false y e h = cc

-- a login that is subject to the limits
pub record SubjectToLimits {ℓ} {S : Type ℓ} (limits : Limits S) (policy : Policy) (call : Call)
    (s : S) : Type 0 where
  pub no_webmail : bytes_eq (codes "10143") call.request.port ≡ false
  pub no_sending : bytes_eq (codes "10025") call.request.port ≡ false
  pub no_port_25 : bytes_eq call.request.port (codes "25") ≡ false
  pub no_token : (length call.raw_pass == 32) ≡ false
  pub no_exemption : policy.is_exempt call.client_ip ≡ false
  pub unknown : limits.get (codes "exempt-" ++ policy.normalize_ip call.client_ip) s ≡ 0

module _ {ℓ} {S : Type ℓ} (limits : Limits S) (policy : Policy) (idna : Idna) (passlib : Passlib)
    (context : Context) (call : Call) (accounts : List Account) (s : S) where
  -- an answer that is no refusal of the endpoint: what the login answered
  pub record Answered (reply : Reply) (after : List Account) (s' : S) : Type ℓ where
    pub port : (is_port_25 call && not (bytes_eq call.request.method (codes "none"))) ≡ false
    pub open_ip : ip_limited limits policy call s ≡ false
    pub handled :
        handle_authentication idna passlib context call.request accounts ≡ returned (reply, after)
    pub open_user : user_limited limits policy call reply.user s ≡ false
    pub counted : s' ≡ count_login limits policy call reply (names_user reply.user) s

  Refused : Reply → Type 0
  Refused reply = (reply.status ≢ codes "OK") × (reply.user ≡ none)

  refuse-Refused :
      (accounts' : List Account) (s0 : S) (reply : Reply) (after : List Account) (s' : S)
      → refuse call accounts' s0 ≡ returned (reply, after, s')
      → Refused reply
  unfolding Refused refuse
  refuse-Refused accounts' s0 reply after s' h =
      let (refusal, made, same) =
        bind_inverse (rejected call.request.protocol ratelimit none) _ h in
      let e : refusal ≡ reply = ground arith in
      (
        rejected-ne-ok call.request.protocol ratelimit none reply (made ∙ ap returned e),
        rejected-user call.request.protocol ratelimit none reply (made ∙ ap returned e),
      )

  unsupported-Refused : (reply : Reply) → not_supported ≡ reply → Refused reply
  unfolding Refused
  unsupported-Refused reply e = (λ h. ground arith, sym (ap (λ (r : Reply). r.user) e))

  login-answers :
      (made : Reply) (next : List Account) (reply : Reply) (after : List Account) (s' : S)
      → (is_port_25 call && not (bytes_eq call.request.method (codes "none"))) ≡ false
      → ip_limited limits policy call s ≡ false
      → handle_authentication idna passlib context call.request accounts ≡ returned (made, next)
      → answer_login limits policy call s (made, next) ≡ returned (reply, after, s')
      → Refused reply ⊎ Answered reply after s'
  unfolding answer_login
  login-answers made next reply after s' port open_ip handled h =
      elim (Bool-cases (user_limited limits policy call made.user s)) [
        | inl t ↦ inl (refuse-Refused next s reply after s' (if_true _ _ t h))
        | inr k ↦
            let same : made ≡ reply = ground arith in
            let rows : next ≡ after = ground arith in
            let stored : count_login limits policy call made (names_user made.user) s ≡ s' =
              ground arith in
            inr (record {
              port = port;
              open_ip = open_ip;
              handled =
                  handled ∙ ap (λ r. returned (r, next)) same ∙ ap (λ l. returned (reply, l)) rows;
              open_user =
                  ap (λ (r : Reply). user_limited limits policy call r.user s) (sym same) ∙ k;
              counted =
                  sym stored
                  ∙ ap (λ (r : Reply). count_login limits policy call r (names_user r.user) s) same;
            })
      ]

  -- either the endpoint refused, or the login answered
  answers :
      (reply : Reply) (after : List Account) (s' : S)
      → nginx_authentication limits policy idna passlib context call accounts s
        ≡ returned (reply, after, s')
      → Refused reply ⊎ Answered reply after s'
  unfolding nginx_authentication
  answers reply after s' h =
      elim (Bool-cases (is_port_25 call && not (bytes_eq call.request.method (codes "none")))) [
        | inl t ↦ inl (unsupported-Refused reply (ground arith))
        | inr f ↦ elim (Bool-cases (ip_limited limits policy call s)) [
          | inl t ↦
              inl (refuse-Refused accounts s reply after s' (if_true _ _ t (if_false _ _ f h)))
          | inr g ↦
              let ((made, next), handled, same) =
                bind_inverse (handle_authentication idna passlib context call.request accounts) _
                  (if_false (ip_limited limits policy call s) _ g (if_false _ _ f h)) in
              login-answers made next reply after s' f g handled same
        ]
      ]

  open_ip-test :
      ip_limited limits policy call s ≡ false
      → SubjectToLimits limits policy call s
      → limits.test auth_ip (policy.network_of call.client_ip) s ≡ true
  unfolding ip_limited should_rate_limit_ip is_from_webmail is_port_25 is_app_token member
      is_subject_to_rate_limits
  open_ip-test h c =
      ground
        (arith, c.no_webmail, c.no_sending, c.no_port_25, c.no_token, c.no_exemption, c.unknown)

  open_user-test :
      (username : Bytes)
      → user_limited limits policy call (some (username, true)) s ≡ false
      → SubjectToLimits limits policy call s
      → limits.test auth_user username s ≡ true
  unfolding user_limited should_rate_limit_user is_from_webmail is_app_token member
      is_subject_to_rate_limits
  open_user-test username h c =
      ground (arith, c.no_webmail, c.no_sending, c.no_token, c.no_exemption, c.unknown)

  -- Where a login is subject to the limits and accepted, the network of its address and the existing user
  -- that it names were below their limits, and the address is exempt from then on: it came neither from
  -- the webmail nor to port 25, its password has not the length of an app token, and its address is
  -- exempt neither by the settings nor by an earlier login.
  pub nginx_authentication-Accepted :
      (reply : Reply) (after : List Account) (s' : S)
      → nginx_authentication limits policy idna passlib context call accounts s
        ≡ returned (reply, after, s')
      → reply.status ≡ codes "OK"
      → SubjectToLimits limits policy call s
      → (limits.test auth_ip (policy.network_of call.client_ip) s ≡ true)
        × ((username : Bytes)
            → reply.user ≡ some (username, true)
            → limits.test auth_user username s ≡ true)
        × (s'
            ≡ limits.incr
                (codes "exempt-" ++ policy.normalize_ip call.client_ip)
                policy.exemption_length
                (limits.clear (codes "exempt-" ++ policy.normalize_ip call.client_ip) s))
  unfolding count_login Refused exempt_ip_from_ratelimits is_port_25
  nginx_authentication-Accepted reply after s' h status c = elim (answers reply after s' h) [
    | inl r ↦ absurd (r.0 status)
    | inr a ↦ (
      open_ip-test a.open_ip c,
      λ username e.
          open_user-test username
            (ap (λ u. user_limited limits policy call u s) (sym e) ∙ a.open_user) c,
      a.counted
          ∙ ground (
            arith,
            ap (λ t. bytes_eq t (codes "OK")) status,
            bytes_eq_refl (codes "OK"),
            c.no_port_25,
          ),
    )
  ]

  -- A failed login of an existing user always counts as a hit of the user's limit, even when the same
  -- password failed before: which password it was has no influence on what is counted.
  pub nginx_authentication-counts :
      (reply : Reply) (after : List Account) (s' : S) (username : Bytes)
      → nginx_authentication limits policy idna passlib context call accounts s
        ≡ returned (reply, after, s')
      → bytes_eq reply.status (codes "OK") ≡ false
      → reply.user ≡ some (username, true)
      → is_subject_to_rate_limits limits policy call.client_ip s ≡ true
      → s'
        ≡ rate_limit_ip limits policy call.client_ip (some username) (
            limits.hit auth_user username (
              limits.incr
                (codes "dedup2-" ++ username ++ b'-' ∷ policy.truncated_mac username [])
                policy.user_granularity
                s))
  unfolding count_login rate_limit_user Refused
  nginx_authentication-counts reply after s' username h failed user subject =
      elim (answers reply after s' h) [
        | inl r ↦ absurd (ground (arith, r.1))
        | inr a ↦ a.counted ∙ ground arith
      ]
