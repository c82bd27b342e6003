-- ===== src/Passkeys/Policy.antt =====
-- What a domain's list of models reads back as, and what a registered passkey complies with.
use mailu.Prelude.{
  ℕ, ◌≡◌, refl, sym, ap, ◌∙◌, subst, ◌≢◌, inl, inr, Bool, true, false, not, ◌&&◌, Option, none,
  some, List, [], ◌∷◌, ◌++◌, map, arith, if◌then◌else◌, Option-cases, is_some, length, all, Bytes,
  bytes_eq_refl, bytes_eq→eq, member, is_space,
}
use mailu.Uuid.{uuid, uuid_str, fits, rstrip_by}
use mailu.Uuid.RoundTrip.{
  is_uuid_char, all-imp, lstrip_by-hex, rstrip_by-hex, uuid_str-IsUuid, length-uuid_str,
  uuid-uuid_str, uuid-fits,
}
use mailu.Passkeys.{
  Flags, Passkey, Verification, User, is_separator, split_items, strip_item, drop_empty, items_of,
  aaguid_item, aaguids, uuids, unique, join_lines, normalize_aaguids, aaguid_allowed, flags_allowed,
  attestation_allowed, Registration, rejected, registered, find_passkey, Reason, passkey_of,
  objection, stage_credential, Webauthn, Site, Enrolment, verification_of, register_credential,
}

-- a text that a UUID is written as
record IsText (u : Bytes) : Type 0 where
  characters : all is_uuid_char u ≡ true
  sized : length u ≡ 36
  same_item : aaguid_item u ≡ u

abbrev AllTexts : List Bytes → Type 0
AllTexts [] = Unit
AllTexts (u ∷ us) = IsText u × AllTexts us

uuid_str-IsText : (n : ℕ) → fits n ≡ true → IsText (uuid_str n)
unfolding aaguid_item
uuid_str-IsText n h = record {
  characters = uuid_str-IsUuid n;
  sized = length-uuid_str n;
  same_item = ground (arith, uuid-uuid_str n);
}

uuids-AllTexts : (items us : List Bytes) → uuids items ≡ some us → AllTexts us
unfolding uuids
uuids-AllTexts [] us e = subst AllTexts (let same : [] ≡ us = ground arith in same) tt
uuids-AllTexts (item ∷ items) us e = elim (Option-cases (uuid item)) [
  | inl bad ↦ absurd (ground arith)
  | inr (n, good) ↦ elim (Option-cases (uuids items)) [
    | inl bad ↦ absurd (ground arith)
    | inr (more, rest) ↦
        let same : uuid_str n ∷ more ≡ us = ground arith in
        subst AllTexts same
          (uuid_str-IsText n (uuid-fits item n good), uuids-AllTexts items more rest)
  ]
]

no_separator : (u : Bytes) → all is_uuid_char u ≡ true → all (λ c. not (is_separator c)) u ≡ true
no_separator = all-imp is_uuid_char (λ c. not (is_separator c)) (λ c e. ground arith)

no_space : (u : Bytes) → all is_uuid_char u ≡ true → all (λ c. not (is_space c)) u ≡ true
no_space = all-imp is_uuid_char (λ c. not (is_space c)) (λ c e. ground arith)

split_items-clean : (u : Bytes) → all (λ c. not (is_separator c)) u ≡ true → split_items u ≡ u ∷ []
unfolding split_items
split_items-clean [] h = refl
split_items-clean (c ∷ cs) h = ground (arith, split_items-clean cs)

split_items-append :
    (u rest : Bytes)
    → all (λ c. not (is_separator c)) u ≡ true
    → split_items (u ++ b'\n' ∷ rest) ≡ u ∷ split_items rest
unfolding split_items
split_items-append [] rest h = ground arith
split_items-append (c ∷ cs) rest h = ground (arith, split_items-append cs rest)

strip_item-IsText : (u : Bytes) → IsText u → strip_item u ≡ u
strip_item-IsText u t =
    ap (rstrip_by is_space) (lstrip_by-hex is_space u (no_space u t.characters))
    ∙ rstrip_by-hex is_space u (no_space u t.characters)

drop_empty-long :
    (u : Bytes) (us : List Bytes) → length u ≡ 36 → drop_empty (u ∷ us) ≡ u ∷ drop_empty us
unfolding drop_empty
drop_empty-long [] us h = absurd (omega arith)
drop_empty-long (c ∷ cs) us h = refl

items_of-join_lines : (us : List Bytes) → AllTexts us → items_of (some (join_lines us)) ≡ us
unfolding items_of join_lines
items_of-join_lines [] h = refl
items_of-join_lines (u ∷ []) h =
    ap (λ r. drop_empty (map strip_item r)) (split_items-clean u (no_separator u h.0.characters))
    ∙ ap (λ r. drop_empty (r ∷ [])) (strip_item-IsText u h.0)
    ∙ drop_empty-long u [] h.0.sized
items_of-join_lines (u ∷ v ∷ us) h =
    ap (λ r. drop_empty (map strip_item r))
      (split_items-append u (join_lines (v ∷ us)) (no_separator u h.0.characters))
    ∙ ap (λ r. drop_empty (r ∷ map strip_item (split_items (join_lines (v ∷ us)))))
        (strip_item-IsText u h.0)
    ∙ drop_empty-long u (map strip_item (split_items (join_lines (v ∷ us)))) h.0.sized
    ∙ ap (λ r. u ∷ r) (items_of-join_lines (v ∷ us) h.1)

AllTexts-if :
    (b : Bool) (us vs : List Bytes) → AllTexts us → AllTexts vs → AllTexts (if b then us else vs)
AllTexts-if true us vs h k = h
AllTexts-if false us vs h k = k

unique-AllTexts : (seen us : List Bytes) → AllTexts us → AllTexts (unique seen us)
unfolding unique
unique-AllTexts seen [] h = tt
unique-AllTexts seen (u ∷ us) h =
    AllTexts-if (member u seen) (unique seen us) (u ∷ unique (u ∷ seen) us)
      (unique-AllTexts seen us h.1) (h.0, unique-AllTexts (u ∷ seen) us h.1)

map-aaguid_item : (us : List Bytes) → AllTexts us → map aaguid_item us ≡ us
map-aaguid_item [] h = refl
map-aaguid_item (u ∷ us) h = rw (h.0.same_item, map-aaguid_item us h.1) refl

member-unique :
    (x : Bytes) (seen us : List Bytes)
    → member x seen ≡ false
    → member x (unique seen us) ≡ member x us
unfolding member unique
member-unique x seen [] h = refl
member-unique x seen (u ∷ us) h = ground (
  arith,
  member-unique x seen us,
  member-unique x (u ∷ seen) us,
  bytes_eq→eq u x,
  bytes_eq_refl x,
)

-- the models that a list names
pub record Named (value : Option Bytes) (text : Bytes) (us : List Bytes) : Type 0 where
  pub read : uuids (items_of value) ≡ some us
  pub same_members : (u : Bytes) → member u (aaguids (some text)) ≡ member u us
  pub again : aaguids (some text) ≡ items_of (some text)

-- A list of models that is accepted is stored in a form that names the same models, each of them in the
-- spelling in which models are compared.
pub normalize_aaguids-Named :
    (value : Option Bytes) (text : Bytes)
    → normalize_aaguids value ≡ some text
    → (us : List Bytes) × Named value text us
unfolding normalize_aaguids aaguids member
normalize_aaguids-Named value text e = elim (Option-cases (uuids (items_of value))) [
  | inl bad ↦ absurd (ground arith)
  | inr (us, good) ↦
      let same : join_lines (unique [] us) ≡ text = ground arith in
      let ok = unique-AllTexts [] us (uuids-AllTexts (items_of value) us good) in
      let items = ap (λ t. items_of (some t)) (sym same) ∙ items_of-join_lines (unique [] us) ok in
      let listed = ap (map aaguid_item) items ∙ map-aaguid_item (unique [] us) ok in
      (
        us,
        record {
          read = good;
          same_members = λ u. ap (member u) listed ∙ member-unique u [] us refl;
          again = listed ∙ sym items;
        },
      )
]

-- the policies on a row, and that its id is new
pub record Compliant (table : List Passkey) (user : User) (flags : Flags) (v : Verification)
    (p : Passkey) : Type 0 where
  pub model_allowed : aaguid_allowed user.domain p.aaguid ≡ true
  pub bound : user.domain.device_bound_only ≡ true → p.device_bound ≡ true
  pub flags_ok : flags_allowed user.domain flags ≡ true
  pub statement : attestation_allowed user.domain p.attestation_format ≡ true
  pub is_new : find_passkey p.credential_id table ≡ none
  pub of_user : p.user_email ≡ user.email
  pub verified_key : p.public_key ≡ v.credential_public_key
  pub same_verified : p.user_verified ≡ v.user_verified

if_none :
    (b : Bool) (r : Reason) (rest : Option Reason)
    → (if b then some r else rest) ≡ none
    → (b ≡ false) × (rest ≡ none)
if_none true r rest h = absurd (ground arith)
if_none false r rest h = (refl, h)

denied_twice : (b : Bool) → not b ≡ false → b ≡ true
denied_twice true h = refl
denied_twice false h = absurd (ground arith)

bound_lem : (strict bound : Bool) → strict ≡ true → (strict && not bound) ≡ false → bound ≡ true
bound_lem strict bound h k = ground arith

absent_of {ℓ} : {A : Type ℓ} (o : Option A) → is_some o ≡ false → o ≡ none
absent_of none h = refl
absent_of (some a) h = absurd (ground arith)

registered_row : {p q : Passkey} {u w : User} → registered p u ≡ registered q w → p ≡ q
registered_row e = cc

registered_user : {p q : Passkey} {u w : User} → registered p u ≡ registered q w → u ≡ w
registered_user e = cc

module _ (table : List Passkey) (user user' : User) (flags : Flags) (name : Bytes)
    (v : Verification) (p : Passkey) where
  with_objection :
      (reason : Reason)
      → objection table user flags v ≡ some reason
      → stage_credential table user flags name (some v) ≢ registered p user'
  unfolding stage_credential
  with_objection reason bad e = ground arith

  without_objection :
      objection table user flags v ≡ none
      → stage_credential table user flags name (some v) ≡ registered p user'
      → (passkey_of user flags name v ≡ p)
        × (user' ≡ record user { passkey_enroll_next_login = false })
  unfolding stage_credential
  without_objection good e =
      let row = passkey_of user flags name v in
      let user1 : User = record user { passkey_enroll_next_login = false } in
      let made : registered row user1 ≡ registered p user' =
        subst
          (λ o.
            elim o as (λ x. Registration) [
              | some reason ↦ rejected reason
              | none ↦ registered row user1
            ]
            ≡ registered p user')
          good e in
      (registered_row made, sym (registered_user made))

-- where nothing is objected
objection-none :
    (table : List Passkey) (user : User) (flags : Flags) (name : Bytes) (v : Verification)
    → objection table user flags v ≡ none
    → Compliant table user flags v (passkey_of user flags name v)
unfolding objection passkey_of
objection-none table user flags name v h =
    let (model, h1) = if_none _ _ _ h in
    let (device, h2) = if_none _ _ _ h1 in
    let (backup, h3) = if_none _ _ _ h2 in
    let (attestation, h4) = if_none _ _ _ h3 in
    let (duplicate, h5) = if_none _ _ _ h4 in
    record {
      model_allowed = denied_twice _ model;
      bound = λ strict. bound_lem _ _ strict device;
      flags_ok = denied_twice _ backup;
      statement = denied_twice _ attestation;
      is_new = absent_of _ duplicate;
      of_user = refl;
      verified_key = refl;
      same_verified = refl;
    }

stage_credential-Compliant :
    (table : List Passkey) (user user' : User) (flags : Flags) (name : Bytes)
    (o : Option Verification) (p : Passkey)
    → stage_credential table user flags name o ≡ registered p user'
    → (v : Verification) × (o ≡ some v)
      × Compliant table user flags v p
      × (user' ≡ record user { passkey_enroll_next_login = false })
stage_credential-Compliant table user user' flags name none p e =
    absurd (unfold stage_credential in ground arith)
stage_credential-Compliant table user user' flags name (some v) p e =
    elim (Option-cases (objection table user flags v)) [
      | inr (reason, bad) ↦ absurd (with_objection table user user' flags name v p reason bad e)
      | inl good ↦
          let (same, same_user) = without_objection table user user' flags name v p good e in
          (
            v,
            refl,
            subst (Compliant table user flags v) same (objection-none table user flags name v good),
            same_user,
          )
    ]

-- `verify_registration_response` as the package documents it: where the user has to be verified, what it
-- returns says that the user was
abbrev pub VerifiesUser : Webauthn → Type 0
VerifiesUser webauthn =
    (response challenge rp_id origin : Bytes) (v : Verification)
    → webauthn.verify_registration_response response challenge rp_id origin true ≡ some v
    → v.user_verified ≡ true

-- what is verified of a payload that is accepted
pub record Checked (webauthn : Webauthn) (site : Site) (user : User) (payload : Enrolment)
    (challenge : Bytes) (p : Passkey) (v : Verification) : Type 0 where
  pub signed :
      (expected : Bytes) × (webauthn.base64url_to_bytes challenge ≡ some expected)
      × (webauthn.verify_registration_response payload.response expected site.rp_id site.origin
            user.domain.require_uv
          ≡ some v)
  pub user_verified : user.domain.require_uv ≡ true → p.user_verified ≡ true

verification_of_inverse :
    (webauthn : Webauthn) (site : Site) (user : User) (payload : Enrolment) (challenge : Bytes)
    (v : Verification)
    → verification_of webauthn site user payload challenge ≡ some v
    → (expected : Bytes) × (webauthn.base64url_to_bytes challenge ≡ some expected)
      × (webauthn.verify_registration_response payload.response expected site.rp_id site.origin
            user.domain.require_uv
          ≡ some v)
unfolding verification_of
verification_of_inverse webauthn site user payload challenge v e =
    elim (Option-cases (webauthn.base64url_to_bytes challenge)) [
      | inl bad ↦ absurd (ground arith)
      | inr (expected, good) ↦ (expected, good, ground arith)
    ]

-- A passkey that is registered was verified, for the challenge and the site and with the user verified
-- where the domain requires it; it is new, belongs to the user and complies with the domain's policies on
-- models, device-bound keys, backups and attestation; nothing else of the user changes but that there is
-- no enrolment to make any more.
pub register_credential-Compliant :
    (webauthn : Webauthn) (site : Site) (table : List Passkey) (user user' : User)
    (payload : Enrolment) (challenge : Bytes) (p : Passkey)
    → VerifiesUser webauthn
    → register_credential webauthn site table user payload challenge ≡ registered p user'
    → (v : Verification) × Checked webauthn site user payload challenge p v
      × Compliant table user payload.flags v p
      × (user' ≡ record user { passkey_enroll_next_login = false })
unfolding register_credential
register_credential-Compliant webauthn site table user user' payload challenge p verifies e =
    let (v, verified, compliant, same) =
      stage_credential-Compliant table user user' payload.flags payload.name
        (verification_of webauthn site user payload challenge) p e in
    let (expected, decoded, signed) =
      verification_of_inverse webauthn site user payload challenge v verified in
    (
      v,
      record {
        signed = (expected, decoded, signed);
        user_verified = λ required.
            compliant.same_verified
            ∙ verifies payload.response expected site.rp_id site.origin v (
                ap
                  (webauthn.verify_registration_response payload.response expected site.rp_id
                    site.origin)
                  (sym required)
                ∙ signed);
      },
      compliant,
      same,
    )
