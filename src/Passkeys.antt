-- ===== src/Passkeys.antt =====
-- core/admin/mailu/passkeys.py: what a domain demands of a passkey, and the registration of one. What the
-- webauthn package verifies is an argument.
pub mod Login
pub mod Policy
pub mod SetupTokens
mod Tests
use mailu.Prelude.{
  ℕ, Bool, true, false, not, ◌&&◌, ◌||◌, Option, none, some, List, [], ◌∷◌, ◌++◌, map, ltb, ◌==◌,
  if◌then◌else◌, is_some, length, take, first, Bytes, codes, bytes_eq, cons_head, member, is_space,
  lower,
}
use mailu.Uuid.{uuid, uuid_str, lstrip_by, rstrip_by}

-- the passkey policy of a domain; a text that is missing is none
pub record Domain : Type 0 where
  pub require_uv : Bool
  pub device_bound_only : Bool
  pub require_sign_count_increase : Bool
  pub enforce_aaguid : Bool
  pub aaguid_mode : Bytes
  pub aaguid_list : Option Bytes
  pub backup_eligible_policy : Bytes
  pub backup_state_policy : Bytes
  pub attestation_policy : Bytes

pub record Flags : Type 0 where
  pub up : Bool
  pub be : Bool
  pub bs : Bool

-- a row of the table
pub record Passkey : Type 0 where
  pub credential_id : Bytes
  pub user_email : Bytes
  pub public_key : Bytes
  pub sign_count : ℕ
  pub aaguid : Bytes
  pub device_bound : Bool
  pub user_verified : Bool
  pub user_present : Bool
  pub credential_device_type : Bytes
  pub backup_eligible : Bool
  pub backed_up : Bool
  pub attestation_format : Bytes
  pub name : Bytes

-- what is verified of a registration
pub record Verification : Type 0 where
  pub fmt : Bytes
  pub aaguid : Bytes
  pub credential_id : Bytes
  pub credential_public_key : Bytes
  pub sign_count : ℕ
  pub credential_device_type : Bytes
  pub credential_backed_up : Bool
  pub user_verified : Bool

pub record User : Type 0 where
  pub email : Bytes
  pub enabled : Bool
  pub domain : Domain
  pub passkey_enroll_next_login : Bool

abbrev is_separator : ℕ → Bool
is_separator c = c == b'\r' || c == b'\n' || c == b','

-- `re.split(r'[\r\n,]+', value)`; the empty parts of a run are dropped with the empty items
unfoldable pub split_items : Bytes → List Bytes
split_items [] = [] ∷ []
split_items (x ∷ xs) =
    let rest = split_items xs in if is_separator x then [] ∷ rest else cons_head x rest

abbrev strip_item : Bytes → Bytes
strip_item item = rstrip_by is_space (lstrip_by is_space item)

unfoldable pub drop_empty : List Bytes → List Bytes
drop_empty [] = []
drop_empty ([] ∷ items) = drop_empty items
drop_empty ((c ∷ cs) ∷ items) = (c ∷ cs) ∷ drop_empty items

-- the items that both functions go through
unfoldable pub items_of : Option Bytes → List Bytes
unfolding split_items drop_empty lstrip_by rstrip_by
items_of none = []
items_of (some value) = drop_empty (map strip_item (split_items value))

unfoldable pub aaguid_item : Bytes → Bytes
aaguid_item item = elim (uuid item) [ some n ↦ uuid_str n | none ↦ codes "invalid:" ++ lower item ]

-- `aaguids`, a set: only membership is asked for
unfoldable pub aaguids : Option Bytes → List Bytes
unfolding items_of aaguid_item
aaguids value = map aaguid_item (items_of value)

abbrev add_uuid : Option ℕ → Option (List Bytes) → Option (List Bytes)
add_uuid none o = none
add_uuid (some n) none = none
add_uuid (some n) (some us) = some (uuid_str n ∷ us)

unfoldable pub uuids : List Bytes → Option (List Bytes)
uuids [] = some []
uuids (item ∷ items) = add_uuid (uuid item) (uuids items)

-- `dict.fromkeys`: each of them once, at its first place
unfoldable pub unique : List Bytes → List Bytes → List Bytes
unique seen [] = []
unique seen (u ∷ us) =
    let rest = unique (u ∷ seen) us in
    let same = unique seen us in if member u seen then same else u ∷ rest

unfoldable pub join_lines : List Bytes → Bytes
join_lines [] = []
join_lines (u ∷ []) = u
join_lines (u ∷ v ∷ us) = u ++ (b'\n' ∷ join_lines (v ∷ us))

-- `normalize_aaguids`; none is a ValueError
unfoldable pub normalize_aaguids : Option Bytes → Option Bytes
unfolding items_of uuids unique join_lines
normalize_aaguids value = elim (uuids (items_of value)) [
  | none ↦ none
  | some us ↦ some (join_lines (unique [] us))
]

unfoldable pub aaguid_allowed : Domain → Bytes → Bool
unfolding aaguids
aaguid_allowed domain aaguid =
    let listed = aaguids domain.aaguid_list in
    if not domain.enforce_aaguid then true else elim (uuid aaguid) [
      | none ↦ false
      | some n ↦
          if bytes_eq domain.aaguid_mode (codes "block")
          then not (member (uuid_str n) listed)
          else length listed == 0 || member (uuid_str n) listed
    ]

-- whether a policy that may require or deny something is broken
abbrev pub broken : Bytes → Bool → Bool
broken policy holds =
    (bytes_eq policy (codes "require") && not holds) || (bytes_eq policy (codes "deny") && holds)

-- `authenticator_flags_allowed`: there are no errors
unfoldable pub flags_allowed : Domain → Flags → Bool
flags_allowed domain flags =
    not (broken domain.backup_eligible_policy flags.be)
    && not (broken domain.backup_state_policy flags.bs)

unfoldable pub attestation_allowed : Domain → Bytes → Bool
attestation_allowed domain attestation_format =
    not (broken domain.attestation_policy (not (bytes_eq attestation_format (codes "none"))))

unfoldable pub sign_count_allowed : Domain → ℕ → ℕ → Bool
sign_count_allowed domain current_count new_count =
    not domain.require_sign_count_increase || ltb current_count new_count

abbrev pub is_device_bound : Bytes → Bool → Bool
is_device_bound device_type backed_up =
    bytes_eq device_type (codes "single_device") && not backed_up

-- the reasons of a refusal
pub data Reason : Type 0 where
  verification_failed : Reason
  aaguid_policy : Reason
  device_bound_policy : Reason
  backup_policy : Reason
  attestation_policy : Reason
  duplicate_credential : Reason

pub data Registration : Type 0 where
  rejected : Reason → Registration
  registered : Passkey → User → Registration

abbrev find_passkey : Bytes → List Passkey → Option Passkey
find_passkey credential_id = first (λ (p : Passkey). bytes_eq p.credential_id credential_id)

abbrev name_or : Bytes → Bytes
name_or [] = codes "Passkey"
name_or (c ∷ cs) = c ∷ cs

unfoldable pub passkey_of : User → Flags → Bytes → Verification → Passkey
passkey_of user flags name v = record {
  credential_id = v.credential_id;
  user_email = user.email;
  public_key = v.credential_public_key;
  sign_count = v.sign_count;
  aaguid = v.aaguid;
  device_bound = is_device_bound v.credential_device_type v.credential_backed_up;
  user_verified = v.user_verified;
  user_present = flags.up;
  credential_device_type = v.credential_device_type;
  backup_eligible = flags.be;
  backed_up = v.credential_backed_up;
  attestation_format = v.fmt;
  name = take 255 (name_or name);
}

-- why a verified passkey is rejected, if it is
unfoldable pub objection : List Passkey → User → Flags → Verification → Option Reason
unfolding aaguid_allowed flags_allowed attestation_allowed
objection table user flags v =
    if not (aaguid_allowed user.domain v.aaguid)
    then some aaguid_policy
    else if user.domain.device_bound_only
        && not (is_device_bound v.credential_device_type v.credential_backed_up)
    then some device_bound_policy
    else if not (flags_allowed user.domain flags)
    then some backup_policy
    else if not (attestation_allowed user.domain v.fmt)
    then some attestation_policy
    else if is_some (find_passkey v.credential_id table)
    then some duplicate_credential
    else none

-- `register_credential` behind the verification of the payload, which is none where it raises
unfoldable pub stage_credential :
    List Passkey → User → Flags → Bytes → Option Verification → Registration
unfolding objection passkey_of
stage_credential table user flags name none = rejected verification_failed
stage_credential table user flags name (some v) = elim (objection table user flags v) [
  | some reason ↦ rejected reason
  | none ↦
      registered (passkey_of user flags name v) (record user { passkey_enroll_next_login = false })
]

-- the two functions of the webauthn package: `base64url_to_bytes`, and `verify_registration_response` for
-- a payload, a challenge, a party, an origin and whether the user has to be verified; none is an exception
pub record Webauthn : Type 0 where
  pub base64url_to_bytes : Bytes → Option Bytes
  pub verify_registration_response : Bytes → Bytes → Bytes → Bytes → Bool → Option Verification

-- `rp_id()` and `origin()` of a request
pub record Site : Type 0 where
  pub rp_id : Bytes
  pub origin : Bytes

-- the payload: what is verified, its flags and its name
pub record Enrolment : Type 0 where
  pub response : Bytes
  pub flags : Flags
  pub name : Bytes

unfoldable pub verification_of : Webauthn → Site → User → Enrolment → Bytes → Option Verification
verification_of webauthn site user payload challenge =
    elim (webauthn.base64url_to_bytes challenge) [
      | none ↦ none
      | some expected ↦
          webauthn.verify_registration_response payload.response expected site.rp_id site.origin
            user.domain.require_uv
    ]

unfoldable pub register_credential :
    Webauthn → Site → List Passkey → User → Enrolment → Bytes → Registration
unfolding verification_of stage_credential
register_credential webauthn site table user payload challenge =
    stage_credential table user payload.flags payload.name
      (verification_of webauthn site user payload challenge)
