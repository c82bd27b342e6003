-- ===== src/Passkeys/Tests.antt =====
-- A registration and sign-ins with it.
use mailu.Prelude.{
  ◌≤◌, ◌≡◌, refl, true, false, Option, none, some, List, [], ◌∷◌, arith, Bool-cases, inl, inr,
  if◌then◌else◌, Bytes, codes, bytes_eq, member, count,
}
use mailu.Uuid.{
  uuid, uuid_str, hex_print, hex_digits, hex_unsigned, int_hex, remove_text, lstrip_by, rstrip_by,
  starts_with,
}
use mailu.Passkeys.{
  Domain, Flags, Passkey, Verification, User, split_items, drop_empty, items_of, uuids, unique,
  join_lines, normalize_aaguids, aaguid_allowed, flags_allowed, attestation_allowed,
  sign_count_allowed, rejected, duplicate_credential, passkey_of, objection, register_credential,
  stage_credential, verification_of, Webauthn, Site, Enrolment, verification_failed,
}
use mailu.Passkeys.Policy.{
  Named, normalize_aaguids-Named, Compliant, Checked, VerifiesUser, register_credential-Compliant,
}
use mailu.Passkeys.Login.{
  Session, Db, Payload, Verified, Verify, refused, redirect, used, complies, verified,
  with_credential, passkey_authenticate,
}
use mailu.Passkeys.SetupTokens.{AccountSetupToken, issue, lookup}
use mailu.Passkeys.SetupTokens.Once.{Link, issue-Link}
use mailu.Passkeys.Login.Accepted.{
  Accepted, passkey_authenticate-Accepted, passkey_authenticate_again,
}

abbrev strict : Domain
strict = record {
  require_uv = true;
  device_bound_only = true;
  require_sign_count_increase = true;
  enforce_aaguid = false;
  aaguid_mode = codes "allow";
  aaguid_list = none;
  backup_eligible_policy = codes "deny";
  backup_state_policy = codes "deny";
  attestation_policy = codes "require";
}

abbrev ann : User
ann = record {
  email = codes "a@b.c";
  enabled = true;
  domain = strict;
  passkey_enroll_next_login = true;
}

abbrev flags : Flags
flags = record { up = true; be = false; bs = false }

abbrev verification : Verification
verification = record {
  fmt = codes "packed";
  aaguid = codes "x";
  credential_id = codes "id";
  credential_public_key = codes "key";
  sign_count = 4;
  credential_device_type = codes "single_device";
  credential_backed_up = false;
  user_verified = true;
}

abbrev key : Passkey
key = passkey_of ann flags [] verification

-- a payload that repeats its challenge
abbrev webauthn : Webauthn
webauthn = record {
  base64url_to_bytes = λ text. some text;
  verify_registration_response = λ response challenge rp_id origin require_uv.
      if bytes_eq response challenge then some verification else none;
}

verifies_user : VerifiesUser webauthn
unfolding bytes_eq
verifies_user response challenge rp_id origin v e =
    elim (Bool-cases (bytes_eq response challenge)) [
      | inl same ↦ ground arith
      | inr other ↦ absurd (ground arith)
    ]

abbrev site : Site
site = record { rp_id = codes "mail.test"; origin = codes "https://mail.test" }

abbrev enrolment : Enrolment
enrolment = record { response = codes "c"; flags = flags; name = [] }

register_credential-Compliant_example :
    (v : Verification) × Checked webauthn site ann enrolment (codes "c") key v
    × Compliant [] ann flags v key
    × (record ann { passkey_enroll_next_login = false }
        ≡ record ann { passkey_enroll_next_login = false })
unfolding register_credential verification_of stage_credential objection aaguid_allowed
    flags_allowed attestation_allowed bytes_eq
register_credential-Compliant_example =
    register_credential-Compliant webauthn site [] ann
      (record ann { passkey_enroll_next_login = false }) enrolment (codes "c") key verifies_user
      refl

-- with the challenge of another time
replayed :
    register_credential webauthn site [] ann enrolment (codes "d") ≡ rejected verification_failed
unfolding register_credential verification_of stage_credential bytes_eq
replayed = refl

twice :
    register_credential webauthn site (key ∷ []) ann enrolment (codes "c")
    ≡ rejected duplicate_credential
unfolding register_credential verification_of stage_credential objection aaguid_allowed
    flags_allowed attestation_allowed passkey_of bytes_eq
twice = refl

abbrev two_models : Option Bytes
two_models = some (codes "0123ABCD-0123-4567-89ab-0123456789ab,\n 0123abcd0123456789ab0123456789ab")

normalize_aaguids-Named_example :
    (us : List Bytes) × Named two_models (codes "0123abcd-0123-4567-89ab-0123456789ab") us
unfolding normalize_aaguids items_of split_items drop_empty uuids unique join_lines member bytes_eq
    uuid uuid_str hex_print hex_digits hex_unsigned int_hex remove_text lstrip_by rstrip_by
    starts_with
normalize_aaguids-Named_example =
    normalize_aaguids-Named two_models (codes "0123abcd-0123-4567-89ab-0123456789ab") refl

abbrev db : Db
db = record { passkeys = key ∷ []; users = ann ∷ [] }

abbrev challenged : Session
challenged = record {
  challenge = some (codes "c");
  email = none;
  destination = some (codes "/webmail");
  user = none;
}

-- a signature that names its challenge and shows a counter of 5
abbrev verify : Verify
verify payload challenge public_key count require_uv =
    if bytes_eq payload.response challenge
    then some (record {
      new_sign_count = 5;
      credential_device_type = codes "single_device";
      credential_backed_up = false;
      user_verified = true;
    })
    else none

abbrev answer : Payload
answer = record { id = some (codes "id"); flags = flags; response = codes "c" }

abbrev web_admin : Bytes
web_admin = codes "/admin"

abbrev used_key : Passkey
used_key = record key { sign_count = 5 }

abbrev signed_in : Session
signed_in = record {
  challenge = none;
  email = none;
  destination = none;
  user = some (codes "a@b.c");
}

abbrev used_db : Db
used_db = record { passkeys = used_key ∷ []; users = ann ∷ [] }

passkey_authenticate-Accepted_example :
    (p : Passkey) × (u : User) × (v : Verified) × Accepted verify answer challenged signed_in db
      used_db p u v
unfolding passkey_authenticate with_credential verified complies used aaguid_allowed flags_allowed
    sign_count_allowed passkey_of bytes_eq
passkey_authenticate-Accepted_example =
    passkey_authenticate-Accepted verify web_admin answer true challenged signed_in db used_db
      (codes "/webmail") refl

passkey_authenticate_again_example :
    passkey_authenticate verify web_admin true (some answer) (signed_in, used_db)
    ≡ (refused 400, record signed_in { challenge = none; email = none }, used_db)
unfolding passkey_authenticate with_credential verified complies used aaguid_allowed flags_allowed
    sign_count_allowed passkey_of bytes_eq
passkey_authenticate_again_example =
    passkey_authenticate_again verify web_admin answer answer challenged signed_in db used_db
      (redirect (codes "/webmail")) refl

five :
    (challenge : Bytes) (v : Verified)
    → verify answer challenge (codes "key") 5 true ≡ some v
    → v.new_sign_count ≤ 5
five challenge v e = ground arith

abbrev table : List AccountSetupToken
table = record { token_hash = codes "old"; user_email = codes "a@b.c"; expires_at = 99999 } ∷ []

issue-Link_example : Link (λ t. t) 1000 (codes "new") (codes "a@b.c") 600 table
unfolding bytes_eq
issue-Link_example = issue-Link (λ t. t) 1000 (codes "new") (codes "a@b.c") 600 table refl

late_link :
    lookup (λ t. t) 1600 (codes "new") (issue (λ t. t) 1000 (codes "new") (codes "a@b.c") 600 table)
    ≡ none
unfolding lookup issue bytes_eq
late_link = refl
