-- ===== src/Passkeys/Login.antt =====
-- `passkey_authenticate` of core/admin/mailu/sso/views/passkeys.py: the answer to a signed challenge.
pub mod Accepted
use mailu.Prelude.{
  ℕ, Bool, true, false, not, ◌&&◌, Option, none, some, List, [], ◌∷◌, map, if◌then◌else◌, first,
  Bytes, bytes_eq,
}
use mailu.Passkeys.{
  Domain, Flags, Passkey, User, aaguid_allowed, flags_allowed, sign_count_allowed, is_device_bound,
}

-- the keys of the session that the view uses
pub record Session : Type 0 where
  pub challenge : Option Bytes
  pub email : Option Bytes
  pub destination : Option Bytes
  pub user : Option Bytes

pub record Db : Type 0 where
  pub passkeys : List Passkey
  pub users : List User

-- a response of the browser: its credential id, none where that is malformed, its flags, and the rest
pub record Payload : Type 0 where
  pub id : Option Bytes
  pub flags : Flags
  pub response : Bytes

-- what is verified of a response
pub record Verified : Type 0 where
  pub new_sign_count : ℕ
  pub credential_device_type : Bytes
  pub credential_backed_up : Bool
  pub user_verified : Bool

-- `verify_authentication_response` for a challenge, a public key, a counter and whether the user has to
-- be verified; none is an exception
abbrev pub Verify : Type 0
Verify = Payload → Bytes → Bytes → ℕ → Bool → Option Verified

pub data Response : Type 0 where
  csrf_error : Response
  refused : (status : ℕ) → Response
  redirect : Bytes → Response

abbrev find_credential : Bytes → Option Bytes → List Passkey → Option Passkey
find_credential credential_id none = first (λ (p : Passkey). bytes_eq p.credential_id credential_id)
find_credential credential_id (some []) =
    first (λ (p : Passkey). bytes_eq p.credential_id credential_id)
find_credential credential_id (some (c ∷ cs)) =
    first
      (λ (p : Passkey). bytes_eq p.credential_id credential_id && bytes_eq p.user_email (c ∷ cs))

abbrev find_user : Bytes → List User → Option User
find_user email = first (λ (u : User). bytes_eq u.email email)

-- the row behind an accepted response, without the time of its use
unfoldable pub used : Payload → Verified → Passkey → Passkey
used payload v p = record p {
  sign_count = v.new_sign_count;
  device_bound = is_device_bound v.credential_device_type v.credential_backed_up;
  user_verified = v.user_verified;
  user_present = payload.flags.up;
  credential_device_type = v.credential_device_type;
  backup_eligible = payload.flags.be;
  backed_up = payload.flags.bs;
}

abbrev put_passkey : Passkey → List Passkey → List Passkey
put_passkey p = map (λ (q : Passkey). if bytes_eq q.credential_id p.credential_id then p else q)

-- the policies on a verified response
unfoldable pub complies : Domain → Payload → Passkey → Verified → Bool
unfolding flags_allowed sign_count_allowed
complies domain payload p v =
    flags_allowed domain payload.flags
    && sign_count_allowed domain p.sign_count v.new_sign_count
    && not (
        domain.device_bound_only
        && not (is_device_bound v.credential_device_type v.credential_backed_up))

abbrev destination_or : Bytes → Option Bytes → Bytes
destination_or web_admin none = web_admin
destination_or web_admin (some []) = web_admin
destination_or web_admin (some (c ∷ cs)) = c ∷ cs

abbrev counter : Domain → Passkey → ℕ
counter domain p = if domain.require_sign_count_increase then p.sign_count else 0

-- from the verification on; the session has lost its challenge before
unfoldable pub verified :
    Verify → Bytes → Payload → Bytes → User → Passkey → Session × Db → Response × Session × Db
unfolding complies used
verified verify web_admin payload challenge u p (session, db) =
    elim (verify payload challenge p.public_key (counter u.domain p) u.domain.require_uv) [
      | none ↦ (refused 401, session, db)
      | some v ↦
          if complies u.domain payload p v
          then (
            redirect (destination_or web_admin session.destination),
            record session { destination = none; user = some u.email },
            record db { passkeys = put_passkey (used payload v p) db.passkeys },
          )
          else (refused 401, session, db)
    ]

unfoldable pub with_credential :
    Verify → Bytes → Payload → Bytes → Passkey → Session × Db → Response × Session × Db
unfolding aaguid_allowed verified
with_credential verify web_admin payload challenge p (session, db) =
    elim (find_user p.user_email db.users) [
      | none ↦ (refused 401, session, db)
      | some u ↦
          if u.enabled && aaguid_allowed u.domain p.aaguid
          then verified verify web_admin payload challenge u p (session, db)
          else (refused 401, session, db)
    ]

abbrev is_challenge : Option Bytes → Bool
is_challenge none = false
is_challenge (some []) = false
is_challenge (some (c ∷ cs)) = true

abbrev challenge_of : Option Bytes → Bytes
challenge_of none = []
challenge_of (some c) = c

unfoldable pub passkey_authenticate :
    Verify → Bytes → Bool → Option Payload → Session × Db → Response × Session × Db
unfolding with_credential
passkey_authenticate verify web_admin csrf_valid payload (session, db) =
    let popped = record session { challenge = none; email = none } in
    if not csrf_valid then (csrf_error, session, db) else elim payload [
      | none ↦ (refused 400, popped, db)
      | some answer ↦
          if not (is_challenge session.challenge)
          then (refused 400, popped, db)
          else elim answer.id [
            | none ↦ (refused 400, popped, db)
            | some credential_id ↦ elim (find_credential credential_id session.email db.passkeys) [
              | none ↦ (refused 401, popped, db)
              | some p ↦
                  with_credential verify web_admin answer (challenge_of session.challenge) p
                    (popped, db)
            ]
          ]
    ]
