-- ===== src/Auth/Nginx/Request/Handled.antt =====
-- Which requests of the mail proxy are accepted.
use mailu.Prelude.{
  ◌≡◌, refl, sym, ap, ◌∙◌, ◌≢◌, inl, inr, Bool, true, false, ◌&&◌, Option, none, some, List, [],
  ◌∷◌, arith, if◌then◌else◌, Bool-cases, is_some, Bytes, codes, member, lower,
}
use mailu.Mail.{Result, raised, returned, Idna, bind_inverse}
use mailu.Auth.{Passlib, Account}
use mailu.Auth.Nginx.{Context, check_credentials}
use mailu.Auth.Nginx.Granted.{if_false, Granted, check_credentials-Granted}
use mailu.Auth.Nginx.Request.{
  Request, Reply, Failure, authentication, encryption, ratelimit, message, get_status, rejected,
  find_account, accept_user, handle_user, unreadable, login_user, handle_login,
  handle_authentication,
}

message-ne-ok : (failure : Failure) → message failure ≢ codes "OK"
message-ne-ok authentication h = cc
message-ne-ok encryption h = cc
message-ne-ok ratelimit h = cc

get_status-message :
    (protocol : Bytes) (failure : Failure) (status code : Bytes)
    → get_status protocol failure ≡ returned (status, code)
    → status ≡ message failure
unfolding get_status
get_status-message protocol failure status code h = ground arith

pub rejected-ne-ok :
    (protocol : Bytes) (failure : Failure) (user : Option (Bytes × Bool)) (reply : Reply)
    → rejected protocol failure user ≡ returned reply
    → reply.status ≢ codes "OK"
unfolding rejected
rejected-ne-ok protocol failure user reply h e =
    let ((status, code), found, same) = bind_inverse (get_status protocol failure) _ h in
    message-ne-ok failure
      (sym (get_status-message protocol failure status code found) ∙ ground arith)

module _ (idna : Idna) (passlib : Passlib) (context : Context) (request : Request)
    (accounts : List Account) where
  -- why a request was accepted: it brings mail in, or it logs a user in
  pub data Accepted : Type 0 where
    incoming :
        member (lower request.method) ([] ∷ codes "none" ∷ []) ≡ true
        → member (lower request.protocol) (codes "smtp" ∷ codes "lmtp" ∷ []) ≡ true
        → Accepted
    login :
        (u password ip : Bytes) (a : Account)
        → request.user ≡ some u
        → request.secret ≡ some (password, ip)
        → find_account idna u accounts ≡ returned (some a)
        → Granted passlib context password ip (lower request.protocol) request.port a
        → Accepted

  unreadable-rejects :
      (u : Bytes) (reply : Reply) (after : List Account)
      → unreadable request accounts u ≡ returned (reply, after)
      → reply.status ≢ codes "OK"
  unfolding unreadable
  unreadable-rejects u reply after h =
      let (r, found, same) =
        bind_inverse (rejected (lower request.protocol) authentication (some (u, false))) _ h in
      rejected-ne-ok (lower request.protocol) authentication (some (u, false)) reply
        (found ∙ ap returned (ground arith))

  handle_user-Accepted :
      (u password ip : Bytes) (user : Option Account) (reply : Reply) (after : List Account)
      → request.user ≡ some u
      → request.secret ≡ some (password, ip)
      → find_account idna u accounts ≡ returned user
      → handle_user passlib context request accounts u (password, ip) user ≡ returned (reply, after)
      → reply.status ≡ codes "OK"
      → Accepted
  unfolding handle_user
  handle_user-Accepted u password ip user reply after named secret found h status =
      let ((granted, next), checked, rest) =
        bind_inverse
          (check_credentials passlib context user password ip (lower request.protocol) request.port)
          _ h in
      elim (Bool-cases granted) [
        | inl t ↦
            let (a, is_user, grants) =
              check_credentials-Granted passlib context password ip (lower request.protocol)
                request.port user next (checked ∙ ap (λ b. returned (b, next)) t) in
            login u password ip a named secret (found ∙ ap returned is_user) grants
        | inr f ↦
            let (r, made, same) =
              bind_inverse
                (if granted
                  then accept_user context request (u, is_some user)
                  else rejected (lower request.protocol) authentication (some (u, is_some user)))
                _ rest in
            absurd (
              rejected-ne-ok (lower request.protocol) authentication (some (u, is_some user)) reply
                (if_false granted _ f made ∙ ap returned (ground arith)) status)
      ]

  login_user-Accepted :
      (u password ip : Bytes) (o : Result (Option Account)) (reply : Reply) (after : List Account)
      → request.user ≡ some u
      → request.secret ≡ some (password, ip)
      → find_account idna u accounts ≡ o
      → (elim o [
        | raised ↦ unreadable request accounts u
        | returned user ↦ handle_user passlib context request accounts u (password, ip) user
      ])
        ≡ returned (reply, after)
      → reply.status ≡ codes "OK"
      → Accepted
  login_user-Accepted u password ip raised reply after named secret found h status =
      absurd (unreadable-rejects u reply after h status)
  login_user-Accepted u password ip (returned user) reply after named secret found h status =
      handle_user-Accepted u password ip user reply after named secret found h status

  handle_login-Accepted :
      (user : Option Bytes) (secret : Option (Bytes × Bytes)) (reply : Reply) (after : List Account)
      → request.user ≡ user
      → request.secret ≡ secret
      → handle_login idna passlib context request accounts ≡ returned (reply, after)
      → reply.status ≡ codes "OK"
      → Accepted
  unfolding handle_login login_user
  handle_login-Accepted none secret reply after named given h status =
      absurd (unreadable-rejects (codes "invalid") reply after (ground arith) status)
  handle_login-Accepted (some u) none reply after named given h status =
      absurd (unreadable-rejects u reply after (ground arith) status)
  handle_login-Accepted (some u) (some (password, ip)) reply after named given h status =
      login_user-Accepted u password ip _ reply after named given refl (ground arith) status

  -- A request is accepted only to bring mail in without authentication, or to log in a user of the table
  -- whom the credentials of the request are granted.
  pub handle_authentication-Accepted :
      (reply : Reply) (after : List Account)
      → handle_authentication idna passlib context request accounts ≡ returned (reply, after)
      → reply.status ≡ codes "OK"
      → Accepted
  unfolding handle_authentication
  handle_authentication-Accepted reply after h status =
      elim (Bool-cases (
        member (lower request.method) ([] ∷ codes "none" ∷ [])
        && member (lower request.protocol) (codes "smtp" ∷ codes "lmtp" ∷ []))) [
          | inl t ↦ incoming (ground arith) (ground arith)
          | inr f ↦
              elim (Bool-cases
                (member (lower request.method) (codes "plain" ∷ codes "login" ∷ []))) [
                  | inl t ↦
                      handle_login-Accepted request.user request.secret reply after refl refl
                        (ground arith) status
                  | inr g ↦ absurd (ground arith)
                ]
        ]
