-- ===== src/Auth/Nginx/Granted.antt =====
-- What a granted login rests on.
use mathlib.Core.List.{Memᴰ}
use mathlib.Core.List.Memᴰ.{head, tail}
use mailu.Prelude.{
  ◌≡◌, refl, ap, ◌∙◌, subst, ◌⊎◌, inl, inr, Bool, true, false, not, ◌&&◌, ◌||◌, Option, none, some,
  List, [], ◌∷◌, arith, if◌then◌else◌, Bool-cases, Bytes, codes, bytes_eq, bytes_eq_refl, member,
}
use mailu.Mail.{returned, bind_inverse}
use mailu.Auth.{Passlib, AppToken, Account}
use mailu.Auth.Password.{check_password, check_token, find_token}
use mailu.Auth.Password.Cache.{Source, check_password-Source}
use mailu.Auth.Nginx.{
  Context, webmail_ports, is_app_token, verify_temp_token, is_closed, check_app_token,
  check_main_password, check_secret, check_credentials,
}

pub if_false {ℓ} :
    {A : Type ℓ} (b : Bool) (x : A) {y z : A} → b ≡ false → (if b then x else y) ≡ z → y ≡ z
if_false true x e h = cc
if_false false x e h = h

module _ (passlib : Passlib) (context : Context) (password ip protocol port : Bytes) where
  -- the secret that a login was granted for
  pub data Secret (user : Account) : Type 0 where
    webmail_token :
        member port webmail_ports ≡ true
        → verify_temp_token context user.email password ≡ true
        → Secret user
    app_token :
        (t : AppToken)
        → Memᴰ t user.tokens
        → is_app_token password ≡ true
        → (check_token passlib password t).0 ≡ true
        → (t.ip ≡ []) ⊎ (context.in_networks ip t.ip ≡ true)
        → Secret user
    main_password :
        is_app_token password ≡ false
        → Source passlib password user
        → (context.auth_require_tokens && not (member protocol (codes "web" ∷ codes "sso" ∷ [])))
          ≡ false
        → Secret user

  -- an open account, and a secret of it
  pub record Granted (user : Account) : Type 0 where
    pub enabled : user.enabled ≡ true
    pub imap : protocol ≡ codes "imap" → (user.enable_imap || member port webmail_ports) ≡ true
    pub pop : protocol ≡ codes "pop3" → user.enable_pop ≡ true
    pub secret : Secret user

  find_token_inverse :
      (tokens : List AppToken) (found : AppToken)
      → (find_token passlib password tokens).0 ≡ some found
      → (t : AppToken) × Memᴰ t tokens
        × ((check_token passlib password t).0 ≡ true)
        × (found.ip ≡ t.ip)
  unfolding find_token check_token
  find_token_inverse [] found h = cc
  find_token_inverse (t ∷ ts) found h = elim (Bool-cases (check_token passlib password t).0) [
    | inl m ↦ (t, head refl, m, ground arith)
    | inr n ↦
        let (u, mem, right, same) = find_token_inverse ts found (ground arith) in
        (u, tail mem, right, same)
  ]

  allowed :
      (networks : List Bytes)
      → ((elim networks [ [] ↦ true | _ ↦ false ]) || context.in_networks ip networks) ≡ true
      → (networks ≡ []) ⊎ (context.in_networks ip networks ≡ true)
  allowed [] h = inl refl
  allowed (n ∷ ns) h = inr h

  app_token-Secret :
      (user : Account) (found : Option AppToken)
      → (find_token passlib password user.tokens).0 ≡ found
      → is_app_token password ≡ true
      → (elim found [
        | none ↦ false
        | some token ↦ (elim token.ip [ [] ↦ true | _ ↦ false ]) || context.in_networks ip token.ip
      ])
        ≡ true
      → Secret user
  app_token-Secret user none e shaped h = cc
  app_token-Secret user (some found) e shaped h =
      let (t, mem, right, same) = find_token_inverse user.tokens found e in
      app_token t mem shaped right (
        allowed t.ip (
          subst (λ n. ((elim n [ [] ↦ true | _ ↦ false ]) || context.in_networks ip n) ≡ true) same
            h))

  main_password-Secret :
      (user after : Account)
      → is_app_token password ≡ false
      → check_main_password passlib context password protocol user ≡ returned (true, after)
      → Secret user
  unfolding check_main_password
  main_password-Secret user after shaped h =
      let ((right, next), checked, same) =
        bind_inverse (check_password passlib password user) _ h in
      main_password shaped
        (check_password-Source passlib password user next
          (checked ∙ ap (λ b. returned (b, next)) (ground arith)))
        (ground arith)

  open-Granted :
      (user : Account) → is_closed protocol port user ≡ false → Secret user → Granted user
  unfolding is_closed
  open-Granted user h s = record {
    enabled = ground arith;
    imap = λ e. ground (arith, ap (λ p. bytes_eq p (codes "imap")) e, bytes_eq_refl (codes "imap"));
    pop = λ e. ground (arith, ap (λ p. bytes_eq p (codes "pop3")) e, bytes_eq_refl (codes "pop3"));
    secret = s;
  }

  checked-Secret :
      (user : Account) (after : Option Account)
      → check_secret passlib context user password ip protocol port ≡ returned (true, after)
      → Secret user
  unfolding check_secret check_app_token
  checked-Secret user after h =
      elim (Bool-cases
        (member port webmail_ports && verify_temp_token context user.email password)) [
          | inl t ↦ webmail_token (ground arith) (ground arith)
          | inr f ↦ elim (Bool-cases (is_app_token password)) [
            | inl s ↦ app_token-Secret user _ refl s (ground arith)
            | inr s ↦
                let ((granted, next), checked, same) =
                  bind_inverse (check_main_password passlib context password protocol user) _ (
                    if_false (is_app_token password) _ s (
                      if_false
                        (member port webmail_ports && verify_temp_token context user.email password)
                        _ f h)) in
                main_password-Secret user next s
                  (checked ∙ ap (λ b. returned (b, next)) (ground arith))
          ]
        ]

  -- A login is granted only to an account that is enabled and open for the protocol, for a token of
  -- its web mail session at a port of the web mail, for an application token of its own from a network
  -- of that token, or for its password where no token is required.
  pub check_credentials-Granted :
      (user after : Option Account)
      → check_credentials passlib context user password ip protocol port ≡ returned (true, after)
      → (a : Account) × (user ≡ some a) × Granted a
  unfolding check_credentials
  check_credentials-Granted none after h = absurd (ground arith)
  check_credentials-Granted (some user) after h = elim (Bool-cases (is_closed protocol port user)) [
    | inl t ↦ absurd (ground arith)
    | inr f ↦ (
      user,
      refl,
      open-Granted user f
          (checked-Secret user after (if_false (is_closed protocol port user) _ f h)),
    )
  ]
