-- ===== src/Quarantine/Stored.antt =====
-- What is found of a record that was stored.
use mailu.Prelude.{
  ℕ, ◌≡◌, refl, none, length, true, false, ◌||◌, some, ◌∷◌, arith, Bytes, bytes_eq, bytes_eq_refl,
  get_item, set_item, get_item-set_item, get_item-set_item_ne,
}
use mailu.Quarantine.{
  quarantine, greylist, Metadata, object, Root, Clock, is_kind, record_id, fits_kind, stamped,
  store, expired, shown, get,
}

-- metadata as they come back: those that were stored, with the id, the kind and the size of the message,
-- and with the time of the storing where they had none
pub record Kept (clock : Clock) (id kind raw : Bytes) (m found_metadata : Metadata) : Type 0 where
  pub id_is : found_metadata.id ≡ some id
  pub kind_is : found_metadata.kind ≡ some kind
  pub size_is : found_metadata.size ≡ some (length raw)
  pub fields_kept : found_metadata.fields ≡ m.fields
  pub received_kept :
      (c : ℕ) (cs : Bytes) → m.received ≡ some (c ∷ cs) → found_metadata.received ≡ some (c ∷ cs)
  pub received_now : m.received ≡ none → found_metadata.received ≡ some (clock.strftime clock.now)
  pub greylisted_marked : is_kind greylist kind ≡ true → found_metadata.greylisted ≡ true

-- the directory behind `store`
pub record Stored (clock later : Clock) (root : Root) (id kind raw : Bytes) (m : Metadata)
    (days : ℕ) (root' : Root) : Type 0 where
  pub returned :
      (value : Bytes)
      → record_id value ≡ some id
      → store clock root value (some raw) m kind ≡ some (root', id)
  pub found :
      (value : Bytes)
      → record_id value ≡ some id
      → (found_metadata : Metadata) × (get later root' value kind days
          ≡ (root', some (found_metadata, raw)))
        × Kept clock id kind raw m found_metadata
  pub other_metadata :
      (other : Bytes)
      → bytes_eq id other ≡ false
      → get_item other root'.metadata_files ≡ get_item other root.metadata_files
  pub other_messages :
      (other : Bytes)
      → bytes_eq id other ≡ false
      → get_item other root'.message_files ≡ get_item other root.message_files

abbrev behind : Clock → Root → Bytes → Bytes → Bytes → Metadata → Root
behind clock root id kind raw m = record {
  exists = true;
  metadata_files =
      set_item id (record { content = object (stamped clock kind m); mtime = clock.now })
        root.metadata_files;
  message_files = set_item id raw root.message_files;
}

get-behind :
    (clock later : Clock) (root : Root) (id kind value : Bytes) (raw : Bytes) (m : Metadata)
    (days : ℕ)
    → record_id value ≡ some id
    → fits_kind kind id ≡ true
    → expired later clock.now (stamped clock kind m) days kind ≡ false
    → get later (behind clock root id kind raw m) value kind days ≡ (
      behind clock root id kind raw m,
      some (shown kind id (some raw) (stamped clock kind m), raw),
    )
unfolding get stamped
get-behind clock later root id kind value raw m days v f e = ground (
  arith,
  get_item-set_item id (record { content = object (stamped clock kind m); mtime = clock.now })
      root.metadata_files,
  get_item-set_item id raw root.message_files,
  bytes_eq_refl kind,
)

shown-Kept :
    (clock : Clock) (id kind raw : Bytes) (m : Metadata)
    → Kept clock id kind raw m (shown kind id (some raw) (stamped clock kind m))
unfolding shown stamped
shown-Kept clock id kind raw m = record {
  id_is = refl;
  kind_is = refl;
  size_is = refl;
  fields_kept = refl;
  received_kept = λ c cs h. rw h refl;
  received_now = λ h. rw h refl;
  greylisted_marked = λ h. ground arith;
}

-- A message that is stored under an id that fits its kind is found under this id until it expires,
-- with the metadata that it was stored with, a time of its receipt, and its kind, id and size; and no
-- other record changes.
pub store-get :
    (clock later : Clock) (root : Root) (id kind : Bytes) (c : ℕ) (cs : Bytes) (m : Metadata)
    (days : ℕ)
    → (is_kind quarantine kind || is_kind greylist kind) ≡ true
    → fits_kind kind id ≡ true
    → expired later clock.now (stamped clock kind m) days kind ≡ false
    → (root' : Root) × Stored clock later root id kind (c ∷ cs) m days root'
store-get clock later root id kind c cs m days k f e = (
  behind clock root id kind (c ∷ cs) m,
  record {
    returned = λ value v. unfold store in ground arith;
    found = λ value v. (
      shown kind id (some (c ∷ cs)) (stamped clock kind m),
      get-behind clock later root id kind value (c ∷ cs) m days v f e,
      shown-Kept clock id kind (c ∷ cs) m,
    );
    other_metadata = λ other ne.
        get_item-set_item_ne id other
          (record { content = object (stamped clock kind m); mtime = clock.now })
          root.metadata_files ne;
    other_messages = λ other ne. get_item-set_item_ne id other (c ∷ cs) root.message_files ne;
  },
)
