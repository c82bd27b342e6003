-- ===== src/Quarantine.antt =====
-- core/admin/mailu/quarantine_repository.py: the files of rejected and of greylisted messages, by the
-- stem of their names. The clock, its format and the reading of a time are arguments; that a file
-- cannot be read or holds no JSON is a content, and other failures of the disk are left out.
pub mod Ids
pub mod Stored
pub mod Cleanup
pub mod Greylist
mod Tests
use mailu.Prelude.{
  ℕ, suc, ◌+◌, ◌*◌, Bool, true, false, not, ◌&&◌, ◌||◌, Option, none, some, List, [], ◌∷◌, ltb, leb,
  ◌==◌, if◌then◌else◌, is_some, length, all, Bytes, codes, bytes_eq, Dict, get_item, set_item,
  del_item, has_key,
}
use mailu.Mail.Columns.{text_lt}
use mailu.Uuid.{uuid, uuid_str}

abbrev pub quarantine : Bytes
quarantine = codes "quarantine"

abbrev pub greylist : Bytes
greylist = codes "greylist"

-- the value of another field of a record
pub data Field : Type 0 where
  null : Field
  text : Bytes → Field
  texts : List Bytes → Field

-- a JSON object: `kind` and `received` where they are there, and the rest of the fields; the id and
-- the size are what `get` and `entries` add
pub record Metadata : Type 0 where
  pub kind : Option Bytes
  pub received : Option Bytes
  pub fields : Dict Field
  pub id : Option Bytes
  pub size : Option ℕ
  pub greylisted : Bool

-- the content of a metadata file
pub data Content : Type 0 where
  unreadable : Content
  no_object : Content
  object : Metadata → Content

pub record File : Type 0 where
  pub content : Content
  pub mtime : ℕ

-- the directory: the stems of the files .json and .eml; false where it does not exist
pub record Root : Type 0 where
  pub exists : Bool
  pub metadata_files : Dict File
  pub message_files : Dict Bytes

-- the clock in seconds, `strftime` of it and `fromisoformat`, where none is an exception
pub record Clock : Type 0 where
  pub now : ℕ
  pub strftime : ℕ → Bytes
  pub fromisoformat : Bytes → Option ℕ

abbrev kind_of : Option Bytes → Bytes
kind_of none = quarantine
kind_of (some k) = k

-- `_kind`
unfoldable pub kind_in : Content → Option Bytes
kind_in unreadable = none
kind_in no_object = none
kind_in (object m) = some (kind_of m.kind)

abbrev hex_lower : ℕ → Bool
hex_lower c = (leb 48 c && leb c 57) || (leb 97 c && leb c 102)

-- `_MESSAGE_ID_KEY.fullmatch`
unfoldable pub is_message_key : Bytes → Bool
is_message_key value = length value == 64 && all hex_lower value

-- `_record_id`, of a text
unfoldable pub record_id : Bytes → Option Bytes
unfolding is_message_key
record_id value = elim (uuid value) [
  | some n ↦ some (uuid_str n)
  | none ↦ if is_message_key value then some value else none
]

unfoldable pub is_uuid : Bytes → Bool
is_uuid value = elim (uuid value) [ none ↦ false | some n ↦ bytes_eq (uuid_str n) value ]

abbrev is_kind : Bytes → Bytes → Bool
is_kind k kind = bytes_eq kind k

-- the form that an id has for a kind
unfoldable pub fits_kind : Bytes → Bytes → Bool
unfolding is_uuid is_message_key
fits_kind kind id =
    not (is_kind quarantine kind && not (is_uuid id))
    && not (is_kind greylist kind && not (is_message_key id))

abbrev has_message : Option Bytes → Bool
has_message none = false
has_message (some []) = false
has_message (some (c ∷ cs)) = true

abbrev received_or : Bytes → Option Bytes → Bytes
received_or stamp none = stamp
received_or stamp (some []) = stamp
received_or stamp (some (c ∷ cs)) = c ∷ cs

-- the metadata as they are written
unfoldable pub stamped : Clock → Bytes → Metadata → Metadata
stamped clock kind m = record m {
  kind = some kind;
  received = some (received_or (clock.strftime clock.now) m.received);
}

abbrev replace_message : Bytes → Option Bytes → Dict Bytes → Dict Bytes
replace_message id none files = files
replace_message id (some raw) files = set_item id raw files

-- `store`; none is a ValueError
unfoldable pub store :
    Clock → Root → Bytes → Option Bytes → Metadata → Bytes → Option (Root × Bytes)
unfolding fits_kind stamped
store clock root value raw_message m kind = elim (record_id value) [
  | none ↦ none
  | some id ↦
      if not (is_kind quarantine kind || is_kind greylist kind)
        || not (fits_kind kind id)
        || (is_kind quarantine kind && not (has_message raw_message))
      then none
      else some (
        record {
          exists = true;
          metadata_files =
              set_item id (record { content = object (stamped clock kind m); mtime = clock.now })
                root.metadata_files;
          message_files = replace_message id raw_message root.message_files;
        },
        id,
      )
]

abbrev day : ℕ
day = 86400

abbrev late : Clock → ℕ → Option Bytes → Bool
late clock days none = true
late clock days (some received) = elim (clock.fromisoformat received) [
  | none ↦ true
  | some t ↦ ltb (t + days * day) clock.now
]

-- `_expired`
unfoldable pub expired : Clock → ℕ → Metadata → ℕ → Bytes → Bool
expired clock mtime m days kind =
    if is_kind quarantine kind
    then ltb (mtime + days * day) clock.now
    else late clock days m.received

abbrev pub unlinked : Bytes → Root → Root
unlinked stem root = record root {
  metadata_files = del_item stem root.metadata_files;
  message_files = del_item stem root.message_files;
}

-- the retention of a record; 0 removes it
unfoldable pub retention : ℕ → ℕ → Content → ℕ
unfolding kind_in
retention quarantine_days greylist_days content = elim (kind_in content) [
  | none ↦ 0
  | some kind ↦
      if is_kind quarantine kind
      then quarantine_days
      else if is_kind greylist kind
      then greylist_days
      else 0
]

-- whether `cleanup_expired` keeps a metadata file
unfoldable pub is_live : Clock → ℕ → ℕ → File → Bool
unfolding retention expired
is_live clock quarantine_days greylist_days file = elim file.content [
  | unreadable ↦ false
  | no_object ↦ false
  | object m ↦
      let days = retention quarantine_days greylist_days (object m) in
      not (days == 0) && not (expired clock file.mtime m days (kind_of m.kind))
]

-- what is counted as removed: an unreadable file is removed without
abbrev counted : Content → ℕ
counted unreadable = 0
counted _ = 1

-- a turn of the loop over the metadata files
unfoldable pub cleanup_stem : Clock → ℕ → ℕ → Bytes → Root × ℕ → Root × ℕ
unfolding is_live
cleanup_stem clock quarantine_days greylist_days stem (root, removed) =
    elim (get_item stem root.metadata_files) [
      | none ↦ (unlinked stem root, removed)
      | some file ↦
          if is_live clock quarantine_days greylist_days file
          then (root, removed)
          else (unlinked stem root, removed + counted file.content)
    ]

abbrev pub stems {ℓ} : {V : Type ℓ} → Dict V → List Bytes
stems [] = []
stems ((k, v) ∷ files) = k ∷ stems files

unfoldable pub cleanup_stems : Clock → ℕ → ℕ → List Bytes → Root × ℕ → Root × ℕ
unfolding cleanup_stem
cleanup_stems clock quarantine_days greylist_days [] state = state
cleanup_stems clock quarantine_days greylist_days (stem ∷ more) state =
    cleanup_stems clock quarantine_days greylist_days more
      (cleanup_stem clock quarantine_days greylist_days stem state)

-- the loop over the messages: those without metadata go
unfoldable pub drop_orphan : Bytes → Root × ℕ → Root × ℕ
drop_orphan stem (root, removed) =
    if has_key stem root.metadata_files
    then (root, removed)
    else (record root { message_files = del_item stem root.message_files }, suc removed)

unfoldable pub drop_orphans : List Bytes → Root × ℕ → Root × ℕ
unfolding drop_orphan
drop_orphans [] state = state
drop_orphans (stem ∷ more) state = drop_orphans more (drop_orphan stem state)

unfoldable pub cleanup_expired : Clock → ℕ → ℕ → Root → Root × ℕ
unfolding cleanup_stems drop_orphans
cleanup_expired clock quarantine_days greylist_days root =
    if root.exists
    then (let (root', removed) =
          cleanup_stems clock quarantine_days greylist_days (stems root.metadata_files) (root, 0) in
        drop_orphans (stems root'.message_files) (root', removed))
    else (root, 0)

-- `delete`, and whether there was something to delete; a kind that is none is not checked
unfoldable pub delete : Root → Bytes → Option Bytes → Root × Bool
unfolding record_id kind_in
delete root value kind = elim (record_id value) [
  | none ↦ (root, false)
  | some id ↦ elim (get_item id root.metadata_files) [
    | none ↦ (root, false)
    | some file ↦ elim file.content [
      | unreadable ↦ (root, false)
      | _ ↦
          let other : Bool = elim kind [
            | none ↦ false
            | some [] ↦ false
            | some (c ∷ cs) ↦ elim (kind_in file.content) [
              | none ↦ true
              | some k ↦ not (bytes_eq k (c ∷ cs))
            ]
          ] in
          if other then (root, false) else (unlinked id root, true)
    ]
  ]
]

-- what is shown of a record
unfoldable pub shown : Bytes → Bytes → Option Bytes → Metadata → Metadata
shown kind id message m = record m {
  kind = some kind;
  id = some id;
  size = elim message [ none ↦ m.size | some raw ↦ some (length raw) ];
  greylisted = is_kind greylist kind || m.greylisted;
}

-- `get`: the directory behind it, and the metadata with the message; an expired record is deleted
unfoldable pub get : Clock → Root → Bytes → Bytes → ℕ → Root × Option (Metadata × Bytes)
unfolding record_id fits_kind expired delete shown
get clock root value kind days = elim (record_id value) [
  | none ↦ (root, none)
  | some id ↦
      if fits_kind kind id
      then elim (get_item id root.metadata_files) [
        | none ↦ (root, none)
        | some file ↦ elim file.content [
          | unreadable ↦ (root, none)
          | no_object ↦ (root, none)
          | object m ↦
              if not (bytes_eq (kind_of m.kind) kind)
              then (root, none)
              else elim (get_item id root.message_files) [
                | none ↦ ((delete root id (some kind)).0, none)
                | some raw ↦
                    if expired clock file.mtime m days kind
                    then ((delete root id (some kind)).0, none)
                    else (root, some (shown kind id (some raw) m, raw))
              ]
        ]
      ]
      else (root, none)
]

-- the record of a file in the list of `entries`, if it is in it
unfoldable pub entry : Root → Option Bytes → Bytes × File → Option Metadata
unfolding shown
entry root wanted (stem, file) = elim file.content [
  | unreadable ↦ none
  | no_object ↦ none
  | object m ↦
      let kind = kind_of m.kind in
      let message = get_item stem root.message_files in
      let unwanted : Bool = elim wanted [
        | none ↦ false
        | some [] ↦ false
        | some (c ∷ cs) ↦ not (bytes_eq kind (c ∷ cs))
      ] in
      if not (is_kind quarantine kind || is_kind greylist kind)
        || unwanted
        || (is_kind quarantine kind && not (is_some message))
      then none
      else some (shown kind stem message m)
]

abbrev opt_cons : Option Metadata → List Metadata → List Metadata
opt_cons none ms = ms
opt_cons (some m) ms = m ∷ ms

unfoldable pub entries_of : Root → Option Bytes → Dict File → List Metadata
unfolding entry
entries_of root wanted [] = []
entries_of root wanted (file ∷ files) =
    opt_cons (entry root wanted file) (entries_of root wanted files)

abbrev pub received_of : Metadata → Bytes
received_of m = elim m.received [ none ↦ [] | some t ↦ t ]

-- `sorted(…, reverse=True)` by the time: entries of one time keep their order
unfoldable pub insert_entry : Metadata → List Metadata → List Metadata
unfolding text_lt
insert_entry m [] = m ∷ []
insert_entry m (n ∷ ms) =
    let rest = insert_entry m ms in
    if text_lt (received_of m) (received_of n) then n ∷ rest else m ∷ n ∷ ms

unfoldable pub sort_entries : List Metadata → List Metadata
unfolding insert_entry
sort_entries [] = []
sort_entries (m ∷ ms) = insert_entry m (sort_entries ms)

unfoldable pub entries : Root → Option Bytes → List Metadata
unfolding entries_of sort_entries
entries root wanted = sort_entries (entries_of root wanted root.metadata_files)
