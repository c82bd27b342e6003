-- ===== src/Passkeys/Login/Accepted.antt =====
-- What an accepted sign-in shows, and what the next attempt meets.
use mailu.Prelude.{
  ◌≤◌, ◌<◌, ◌≡◌, sym, ap, ◌∙◌, subst, ◌≢◌, inl, inr, Bool, true, ◌&&◌, none, some, arith,
  Bool-cases, Option-cases, Bytes,
}
use mailu.Passkeys.{Domain, Passkey, User, aaguid_allowed, sign_count_allowed}
use mailu.Passkeys.Login.{
  Session, Db, Payload, Verified, Verify, Response, refused, redirect, find_credential, find_user,
  used, put_passkey, complies, counter, verified, with_credential, challenge_of,
  passkey_authenticate,
}

-- the row, the account and the verification behind a redirect
pub record Accepted (verify : Verify) (payload : Payload) (session session' : Session) (db db' : Db)
    (p : Passkey) (u : User) (v : Verified) : Type 0 where
  pub id_given :
      (id : Bytes) × (payload.id ≡ some id)
      × (find_credential id session.email db.passkeys ≡ some p)
  pub owner : find_user p.user_email db.users ≡ some u
  pub enabled : u.enabled ≡ true
  pub model_allowed : aaguid_allowed u.domain p.aaguid ≡ true
  pub signed :
      verify payload
        (challenge_of session.challenge)
        p.public_key
        (counter u.domain p)
        u.domain.require_uv
      ≡ some v
  pub compliant : complies u.domain payload p v ≡ true
  pub written : db'.passkeys ≡ put_passkey (used payload v p) db.passkeys
  pub signed_in : session'.user ≡ some u.email
  pub spent : session'.challenge ≡ none

module _ (verify : Verify) (web_admin : Bytes) (payload : Payload) where
  -- behind the row
  record Granted (challenge : Bytes) (p : Passkey) (session session' : Session) (db db' : Db)
      (u : User) (v : Verified) : Type 0 where
    owner : find_user p.user_email db.users ≡ some u
    enabled : u.enabled ≡ true
    model_allowed : aaguid_allowed u.domain p.aaguid ≡ true
    signed : verify payload challenge p.public_key (counter u.domain p) u.domain.require_uv ≡ some v
    compliant : complies u.domain payload p v ≡ true
    written : db'.passkeys ≡ put_passkey (used payload v p) db.passkeys
    signed_in : session'.user ≡ some u.email
    spent : session'.challenge ≡ session.challenge

  verified-Granted :
      (challenge : Bytes) (u : User) (p : Passkey) (session session' : Session) (db db' : Db)
      (url : Bytes)
      → find_user p.user_email db.users ≡ some u
      → (u.enabled && aaguid_allowed u.domain p.aaguid) ≡ true
      → verified verify web_admin payload challenge u p (session, db)
        ≡ (redirect url, session', db')
      → (v : Verified) × Granted challenge p session session' db db' u v
  unfolding verified
  verified-Granted challenge u p session session' db db' url o a e =
      elim (Option-cases
        (verify payload challenge p.public_key (counter u.domain p) u.domain.require_uv)) [
          | inl bad ↦ absurd (ground arith)
          | inr (v, good) ↦ elim (Bool-cases (complies u.domain payload p v)) [
            | inr not_so ↦ absurd (ground arith)
            | inl so ↦ (
              v,
              record {
                owner = o;
                enabled = ground arith;
                model_allowed = ground arith;
                signed = good;
                compliant = so;
                written = ground arith;
                signed_in = ground arith;
                spent = ground arith;
              },
            )
          ]
        ]

  with_credential-Granted :
      (challenge : Bytes) (p : Passkey) (session session' : Session) (db db' : Db) (url : Bytes)
      → with_credential verify web_admin payload challenge p (session, db)
        ≡ (redirect url, session', db')
      → (u : User) × (v : Verified) × Granted challenge p session session' db db' u v
  unfolding with_credential
  with_credential-Granted challenge p session session' db db' url e =
      elim (Option-cases (find_user p.user_email db.users)) [
        | inl bad ↦ absurd (ground arith)
        | inr (u, good) ↦ elim (Bool-cases (u.enabled && aaguid_allowed u.domain p.aaguid)) [
          | inr not_so ↦ absurd (ground arith)
          | inl so ↦
              let (v, g) =
                verified-Granted challenge u p session session' db db' url good so (ground arith) in
              (u, v, g)
        ]
      ]

  -- A sign-in that is accepted was for a passkey of the table and of the address that was asked for, if
  -- one was, whose user is enabled; the response was verified for the challenge of the session and for
  -- the key of the row; the policies of the domain hold, and the row has the new counter.
  pub passkey_authenticate-Accepted :
      (csrf_valid : Bool) (session session' : Session) (db db' : Db) (url : Bytes)
      → passkey_authenticate verify web_admin csrf_valid (some payload) (session, db)
        ≡ (redirect url, session', db')
      → (p : Passkey) × (u : User) × (v : Verified) × Accepted verify payload session session' db
          db' p u v
  unfolding passkey_authenticate
  passkey_authenticate-Accepted csrf_valid session session' db db' url e =
      elim (Option-cases payload.id) [
        | inl bad ↦ absurd (ground arith)
        | inr (id, given) ↦ elim (Option-cases (find_credential id session.email db.passkeys)) [
          | inl bad ↦ absurd (ground arith)
          | inr (p, found) ↦
              let popped : Session = record session { challenge = none; email = none } in
              let (u, v, g) =
                with_credential-Granted (challenge_of session.challenge) p popped session' db db'
                  url (ground arith) in
              (
                p,
                u,
                v,
                record {
                  id_given = (id, given, found);
                  owner = g.owner;
                  enabled = g.enabled;
                  model_allowed = g.model_allowed;
                  signed = g.signed;
                  compliant = g.compliant;
                  written = g.written;
                  signed_in = g.signed_in;
                  spent = g.spent;
                },
              )
        ]
      ]

  verified-spent :
      (challenge : Bytes) (u : User) (p : Passkey) (session : Session) (db : Db)
      → (verified verify web_admin payload challenge u p (session, db)).1.challenge
        ≡ session.challenge
  unfolding verified
  verified-spent challenge u p session db = ground arith

  with_credential-spent :
      (challenge : Bytes) (p : Passkey) (session : Session) (db : Db)
      → (with_credential verify web_admin payload challenge p (session, db)).1.challenge
        ≡ session.challenge
  unfolding with_credential
  with_credential-spent challenge p session db =
      elim (Option-cases (find_user p.user_email db.users)) [
        | inl bad ↦ ground arith
        | inr (u, good) ↦ ground (arith, verified-spent challenge u p session db)
      ]

  answer-spent :
      (session : Session) (db : Db)
      → (passkey_authenticate verify web_admin true (some payload) (session, db)).1.challenge ≡ none
  unfolding passkey_authenticate
  answer-spent session db = elim (Option-cases payload.id) [
    | inl bad ↦ ground arith
    | inr (id, given) ↦ elim (Option-cases (find_credential id session.email db.passkeys)) [
      | inl bad ↦ ground arith
      | inr (p, found) ↦ ground (
        arith,
        with_credential-spent (challenge_of session.challenge) p
            (record session { challenge = none; email = none }) db,
      )
    ]
  ]

without_challenge :
    (verify : Verify) (web_admin : Bytes) (payload : Payload) (session : Session) (db : Db)
    → session.challenge ≡ none
    → passkey_authenticate verify web_admin true (some payload) (session, db)
      ≡ (refused 400, record session { challenge = none; email = none }, db)
unfolding passkey_authenticate
without_challenge verify web_admin payload session db e = ground arith

-- A challenge is good for one answer: whatever became of an answer behind the CSRF check, a second one in
-- that session is refused and changes no row.
pub passkey_authenticate_again :
    (verify : Verify) (web_admin : Bytes) (payload payload' : Payload) (session session' : Session)
    (db db' : Db) (response : Response)
    → passkey_authenticate verify web_admin true (some payload) (session, db)
      ≡ (response, session', db')
    → passkey_authenticate verify web_admin true (some payload') (session', db')
      ≡ (refused 400, record session' { challenge = none; email = none }, db')
passkey_authenticate_again verify web_admin payload payload' session session' db db' response e =
    without_challenge verify web_admin payload' session' db'
      (ap (λ r. r.1.challenge) (sym e) ∙ answer-spent verify web_admin payload session db)

-- of a compliant response where the domain wants the counter to increase
complies-increases :
    (domain : Domain) (payload : Payload) (p : Passkey) (v : Verified)
    → complies domain payload p v ≡ true
    → domain.require_sign_count_increase ≡ true
    → p.sign_count < v.new_sign_count
unfolding complies sign_count_allowed
complies-increases domain payload p v h k = ground arith

-- what `Accepted` says, of the row and the account that are known
lagging_lem :
    (verify : Verify) (payload : Payload) (challenge : Bytes) (p q : Passkey) (u w : User)
    (v : Verified)
    → p ≡ q
    → u ≡ w
    → verify payload challenge q.public_key (counter w.domain q) w.domain.require_uv ≡ some v
    → complies w.domain payload q v ≡ true
    → u.domain.require_sign_count_increase ≡ true
    → (verify payload challenge p.public_key (counter u.domain p) u.domain.require_uv ≡ some v)
      × (p.sign_count < v.new_sign_count)
lagging_lem verify payload challenge p q u w v e f signed h strict = (
  subst
      (λ (r : Passkey).
        verify payload challenge r.public_key (counter u.domain r) u.domain.require_uv ≡ some v)
      (sym e)
      (subst
        (λ (x : User).
          verify payload challenge q.public_key (counter x.domain q) x.domain.require_uv ≡ some v)
        (sym f) signed),
  subst (λ (r : Passkey). r.sign_count < v.new_sign_count) (sym e)
      (complies-increases w.domain payload q v h
        (ap (λ (x : User). x.domain.require_sign_count_increase) (sym f) ∙ strict)),
)

-- Where the domain wants the counter to increase, an answer with a counter that is no greater than the one
-- that is stored signs nobody in, in any session and for any challenge: a copy of the authenticator that
-- lags behind is of no use.
pub passkey_authenticate-lagging :
    (verify : Verify) (web_admin : Bytes) (payload : Payload) (session : Session) (db : Db)
    (id : Bytes) (p : Passkey) (u : User)
    → payload.id ≡ some id
    → find_credential id session.email db.passkeys ≡ some p
    → find_user p.user_email db.users ≡ some u
    → u.domain.require_sign_count_increase ≡ true
    → ((challenge : Bytes) (v : Verified)
        → verify payload challenge p.public_key (counter u.domain p) u.domain.require_uv ≡ some v
        → v.new_sign_count ≤ p.sign_count)
    → (csrf_valid : Bool) (session' : Session) (db' : Db) (url : Bytes)
    → passkey_authenticate verify web_admin csrf_valid (some payload) (session, db)
      ≢ (redirect url, session', db')
passkey_authenticate-lagging verify web_admin payload session db id p u given found owner strict
      lags csrf_valid session' db' url e =
    let (q, w, v, a) =
      passkey_authenticate-Accepted verify web_admin payload csrf_valid session session' db db' url
        e in
    let (id', given', found') = a.id_given in
    let same_id : id ≡ id' = ground arith in
    let same : p ≡ q = ground arith in
    let same_user : u ≡ w = ground (arith, a.owner) in
    let (signed, more) =
      lagging_lem verify payload (challenge_of session.challenge) p q u w v same same_user a.signed
        a.compliant strict in
    let less = lags (challenge_of session.challenge) v signed in absurd (omega arith)
