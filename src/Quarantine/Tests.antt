-- ===== src/Quarantine/Tests.antt =====
-- Runs of the quarantine.
use mailu.Prelude.{
  ℕ, ◌≡◌, refl, true, false, none, some, [], ◌∷◌, length, Bytes, codes, bytes_eq, decimal,
  read_digits,
}
use mailu.Uuid.{
  uuid, uuid_str, hex_print, hex_digits, hex_unsigned, int_hex, remove_text, lstrip_by, rstrip_by,
  starts_with,
}
use mailu.Mail.Columns.{text_lt}
use mailu.Quarantine.{
  quarantine, greylist, Metadata, text, unreadable, object, File, Root, Clock, record_id, is_uuid,
  is_message_key, fits_kind, stamped, expired, get, delete, retention, kind_in, is_live,
  cleanup_stem, cleanup_stems, drop_orphan, drop_orphans, cleanup_expired, entries, entries_of,
  entry, shown, insert_entry, sort_entries,
}
use mailu.Quarantine.Ids.{IsSafe, record_id-IsSafe}
use mailu.Quarantine.Stored.{Stored, store-get}
use mailu.Quarantine.Cleanup.{live_at, Cleaned, cleanup_expired-Cleaned}

abbrev at : ℕ → Clock
at now = record { now = now; strftime = λ t. decimal t; fromisoformat = λ text. read_digits 0 text }

abbrev report : Metadata
report = record {
  kind = none;
  received = none;
  fields = (codes "rcpt", text (codes "a@b.c")) ∷ [];
  id = none;
  size = none;
  greylisted = false;
}

abbrev id : Bytes
id = codes "0123abcd-0123-4567-89ab-0123456789ab"

abbrev empty_root : Root
empty_root = record { exists = false; metadata_files = []; message_files = [] }

spelled : record_id (codes "urn:uuid:{0123ABCD012345678 9ab0123456789ab}") ≡ none
unfolding record_id uuid hex_digits hex_unsigned int_hex remove_text lstrip_by rstrip_by starts_with
    is_message_key
spelled = refl

record_id-IsSafe_example : IsSafe id
unfolding record_id uuid uuid_str hex_print hex_digits hex_unsigned int_hex remove_text lstrip_by
    rstrip_by starts_with
record_id-IsSafe_example =
    record_id-IsSafe (codes "urn:uuid:{0123ABCD0123456789ab0123456789ab}") id refl

store-get_example :
    (root' : Root) × Stored
      (at 1000000)
      (at 1080000)
      empty_root
      id
      quarantine
      (codes "Hi")
      report
      1
      root'
unfolding fits_kind is_uuid uuid uuid_str hex_print hex_digits hex_unsigned int_hex remove_text
    lstrip_by rstrip_by starts_with bytes_eq expired stamped
store-get_example =
    store-get (at 1000000) (at 1080000) empty_root id quarantine b'H' (codes "i") report 1 refl refl
      refl

abbrev old : File
old = record { content = object (record report { kind = some quarantine }); mtime = 1000 }

abbrev new : File
new = record { content = object (record report { kind = some quarantine }); mtime = 900000 }

abbrev full : Root
full = record {
  exists = true;
  metadata_files =
      (codes "a", old)
      ∷ (codes "b", new)
      ∷ (codes "c", record { content = unreadable; mtime = 900000 })
      ∷ [];
  message_files =
      (codes "a", codes "1")
      ∷ (codes "b", codes "2")
      ∷ (codes "c", codes "3")
      ∷ (codes "d", codes "4")
      ∷ [];
}

cleanup_expired-Cleaned_example :
    Cleaned
      (live_at (at 1000000) 7 7 full (codes "b"))
      (codes "b")
      full
      (cleanup_expired (at 1000000) 7 7 full).0
cleanup_expired-Cleaned_example = cleanup_expired-Cleaned (at 1000000) 7 7 full (codes "b") refl

cleaned : cleanup_expired (at 1000000) 7 7 full ≡ (
  record {
    exists = true;
    metadata_files = (codes "b", new) ∷ [];
    message_files = (codes "b", codes "2") ∷ [];
  },
  2,
)
unfolding cleanup_expired cleanup_stems cleanup_stem drop_orphans drop_orphan is_live retention
    kind_in expired bytes_eq
cleaned = refl

listed : length (entries full (some quarantine)) ≡ 2
unfolding entries entries_of entry shown insert_entry sort_entries text_lt bytes_eq
listed = refl

abbrev key : Bytes
key = codes "0123456789abcdef0123456789abcdef0123456789abcdef0123456789abcdef"

abbrev pending : Root
pending = record {
  exists = true;
  metadata_files =
      (
        key,
        record {
          content =
              object (record report { kind = some greylist; received = some (codes "1000000") });
          mtime = 1000000;
        },
      )
      ∷ [];
  message_files = [];
}

-- a greylisted message that was stored without its text is gone after the first look at it
looked_at : (get (at 1000000) pending key greylist 7).0.metadata_files ≡ []
unfolding get record_id uuid hex_digits hex_unsigned int_hex remove_text lstrip_by rstrip_by
    starts_with is_message_key fits_kind is_uuid bytes_eq delete kind_in
looked_at = refl
