-- ===== src/Quarantine/Greylist/Retry.antt =====
-- A message that is refused for now, and its retry.
use mailu.Prelude.{
  ◌≡◌, ap, ◌∙◌, true, false, Option, none, some, arith, Bytes, bytes_eq, member, Dict, set_item,
  del_item, has_key, get_item-set_item, del_item-absent, del_item-set_item,
}
use mailu.Quarantine
use mailu.Quarantine.{
  greylist, File, Root, Clock, is_message_key, kind_in, fits_kind, stamped, store, delete, object,
  Metadata, replace_message,
}
use mailu.Quarantine.Ids.{record_id-key}
use mailu.Quarantine.Greylist.{
  Report, id_of, or_text, key_of, entry_of, rejections, acceptances, action_of, bare_id,
  record_report,
}

abbrev file_of : Clock → Metadata → File
file_of clock m = record { content = object (stamped clock greylist m); mtime = clock.now }

abbrev with_file : Clock → Root → Bytes → Option Bytes → Metadata → Root
with_file clock root key raw m = record {
  exists = true;
  metadata_files = set_item key (file_of clock m) root.metadata_files;
  message_files = replace_message key raw root.message_files;
}

store-greylist :
    (clock : Clock) (root : Root) (key : Bytes) (raw : Option Bytes) (m : Metadata)
    → is_message_key key ≡ true
    → store clock root key raw m greylist ≡ some (with_file clock root key raw m, key)
unfolding store fits_kind bytes_eq
store-greylist clock root key raw m h = ground (arith, record_id-key key)

replace-del_item :
    (key : Bytes) (raw : Option Bytes) (d : Dict Bytes)
    → has_key key d ≡ false
    → del_item key (replace_message key raw d) ≡ d
replace-del_item key none d h = del_item-absent key d h
replace-del_item key (some raw) d h = del_item-set_item key raw d h

delete-with_file :
    (clock : Clock) (root : Root) (key : Bytes) (raw : Option Bytes) (m : Metadata)
    → is_message_key key ≡ true
    → root.exists ≡ true
    → has_key key root.metadata_files ≡ false
    → has_key key root.message_files ≡ false
    → Quarantine.delete (with_file clock root key raw m) key (some greylist) ≡ (root, true)
unfolding delete kind_in stamped bytes_eq
delete-with_file clock root key raw m h x a b = ground (
  arith,
  record_id-key key,
  get_item-set_item key (file_of clock m) root.metadata_files,
  del_item-set_item key (file_of clock m) root.metadata_files,
  replace-del_item key raw root.message_files,
)

module _ (sha256 : Bytes → Bytes) (digest : (t : Bytes) → is_message_key (sha256 t) ≡ true) where
  key_of-IsKey :
      (o : Option Bytes) (key : Bytes) → key_of sha256 o ≡ some key → is_message_key key ≡ true
  unfolding key_of
  key_of-IsKey none key e = cc
  key_of-IsKey (some t) key e = ground (arith, digest (bare_id t))

  record_report-rejected :
      (clock : Clock) (root : Root) (m : Report) (raw : Option Bytes) (key : Bytes)
      → key_of sha256 (id_of m) ≡ some key
      → member (action_of m) rejections ≡ true
      → record_report sha256 clock root m raw
        ≡ (with_file clock root key raw (entry_of clock (or_text (id_of m)) m), some true)
  unfolding record_report
  record_report-rejected clock root m raw key k r = ground (
    arith,
    store-greylist clock root key raw (entry_of clock (or_text (id_of m)) m)
        (key_of-IsKey (id_of m) key k),
  )

  record_report-accepted :
      (clock : Clock) (root : Root) (m : Report) (raw : Option Bytes) (key : Bytes)
      → key_of sha256 (id_of m) ≡ some key
      → member (action_of m) rejections ≡ false
      → member (action_of m) acceptances ≡ true
      → record_report sha256 clock root m raw
        ≡ ((Quarantine.delete root key (some greylist)).0, some false)
  unfolding record_report
  record_report-accepted clock root m raw key k n a = ground arith

  -- A message that is refused for now and accepted on its retry leaves the directory as it was before,
  -- whatever its report looks like otherwise and whether its text was kept or not.
  pub record_report-retry :
      (clock later : Clock) (root : Root) (m retry : Report) (raw raw' : Option Bytes) (key : Bytes)
      → key_of sha256 (id_of m) ≡ some key
      → key_of sha256 (id_of retry) ≡ some key
      → member (action_of m) rejections ≡ true
      → member (action_of retry) rejections ≡ false
      → member (action_of retry) acceptances ≡ true
      → root.exists ≡ true
      → has_key key root.metadata_files ≡ false
      → has_key key root.message_files ≡ false
      → record_report sha256 later (record_report sha256 clock root m raw).0 retry raw'
        ≡ (root, some false)
  record_report-retry clock later root m retry raw raw' key k k' r n a x f g =
      let entry = entry_of clock (or_text (id_of m)) m in
      ap (λ s. record_report sha256 later s.0 retry raw')
        (record_report-rejected clock root m raw key k r)
      ∙ record_report-accepted later (with_file clock root key raw entry) retry raw' key k' n a
      ∙ ap (λ s. (s.0, some false))
          (delete-with_file clock root key raw entry (key_of-IsKey (id_of m) key k) x f g)
