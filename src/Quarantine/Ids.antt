-- ===== src/Quarantine/Ids.antt =====
-- The ids that name files.
use mailu.Prelude.{
  ℕ, ◌≡◌, refl, sym, ap, ◌∙◌, subst, ◌⊎◌, inl, inr, true, none, some, [], ◌∷◌, arith, ◌==◌,
  if◌then◌else◌, Option-cases, length, filter, all, Bytes,
}
use mailu.Uuid.{uuid, uuid_str, fits, no_dash, in_range, int_hex}
use mailu.Uuid.RoundTrip.{
  is_uuid_char, uuid_str-IsUuid, length-uuid_str, uuid-uuid_str, uuid-fits, stripped, filter-all,
}
use mailu.Quarantine.{is_message_key, hex_lower, record_id}

all-hex : (cs : Bytes) → all hex_lower cs ≡ true → all is_uuid_char cs ≡ true
all-hex [] h = refl
all-hex (c ∷ cs) h = ground (arith, all-hex cs)

-- an id as it names the files
pub record IsSafe (id : Bytes) : Type 0 where
  pub characters : all is_uuid_char id ≡ true
  pub sized : (length id ≡ 36) ⊎ (length id ≡ 64)
  pub stable : record_id id ≡ some id

uuid-IsSafe : (n : ℕ) → fits n ≡ true → IsSafe (uuid_str n)
unfolding record_id
uuid-IsSafe n h = record {
  characters = uuid_str-IsUuid n;
  sized = inl (length-uuid_str n);
  stable = ground (arith, uuid-uuid_str n);
}

key-IsSafe : (value : Bytes) → uuid value ≡ none → is_message_key value ≡ true → IsSafe value
unfolding record_id is_message_key
key-IsSafe value u h = record {
  characters = all-hex value (ground arith);
  sized = inr (ground arith);
  stable = ground arith;
}

-- Whatever text a request gives as an id, the one that names files holds digits, the letters a to f and
-- dashes only, has 36 or 64 characters, and is its own id: no name leaves the directory.
pub record_id-IsSafe : (value id : Bytes) → record_id value ≡ some id → IsSafe id
unfolding record_id
record_id-IsSafe value id h = elim (Option-cases (uuid value)) [
  | inl none_there ↦
      let same : value ≡ id = ground arith in
      subst IsSafe same (key-IsSafe value none_there (ground arith))
  | inr (n, e) ↦
      let same : uuid_str n ≡ id = ground arith in
      subst IsSafe same (uuid-IsSafe n (uuid-fits value n e))
]

long :
    (key : Bytes)
    → length key ≡ 64
    → (if length key == 32 then in_range (int_hex key) else none) ≡ none
long key h = rw h refl

-- nothing is taken away from a key, which is too long for a UUID
uuid-key : (key : Bytes) → is_message_key key ≡ true → uuid key ≡ none
unfolding uuid is_message_key
uuid-key key h =
    let hex : all hex_lower key ≡ true = ground arith in
    subst (λ r. (if length r == 32 then in_range (int_hex r) else none) ≡ none)
      (sym (ap (filter no_dash) (stripped key (all-hex key hex)) ∙ filter-all key hex))
      (long key (ground arith))

-- A key is the id of its files.
pub record_id-key : (key : Bytes) → is_message_key key ≡ true → record_id key ≡ some key
unfolding record_id
record_id-key key h = ground (arith, uuid-key key)
