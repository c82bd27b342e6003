-- ===== src/Quarantine/Greylist/Tests.antt =====
-- A message that is refused, and its retry.
use mailu.Prelude.{
  ℕ, ◌≡◌, refl, true, false, none, some, [], ◌∷◌, Bytes, codes, bytes_eq, decimal, read_digits, has,
  member, lower,
}
use mailu.Mail.Columns.{strip, lstrip, rstrip, sorted_set, insert_item, text_lt}
use mailu.Uuid.{lstrip_by, rstrip_by}
use mailu.Quarantine.{Root, Clock, is_message_key}
use mailu.Quarantine.Greylist.{Report, bare_id, key_of, recipient_list, record_report}
use mailu.Quarantine.Greylist.Retry.{record_report-retry}

abbrev digest : Bytes → Bytes
digest t = codes "0123456789abcdef0123456789abcdef0123456789abcdef0123456789abcdef"

abbrev at : ℕ → Clock
at now = record { now = now; strftime = λ t. decimal t; fromisoformat = λ text. read_digits 0 text }

abbrev root : Root
root = record { exists = true; metadata_files = []; message_files = [] }

abbrev refused : Report
refused = record {
  message_id = none;
  message_id_dashed = some (codes " <1@x> ");
  action = codes "Soft reject";
  from = some (codes "a@b.c");
  sender = none;
  subject = none;
  rcpt = codes "B@x" ∷ codes "no" ∷ codes "a@x" ∷ codes "b@x " ∷ [];
  score = none;
}

abbrev retry : Report
retry = record refused { message_id = some (codes "1@x"); action = codes "no action" }

record_report-retry_example :
    record_report digest
      (at 600)
      (record_report digest (at 0) root refused (some (codes "Hi"))).0
      retry
      none
    ≡ (root, some false)
unfolding is_message_key key_of bare_id strip lstrip rstrip lstrip_by rstrip_by member bytes_eq
    lower
record_report-retry_example =
    record_report-retry digest (λ t. refl) (at 0) (at 600) root refused retry (some (codes "Hi"))
      none (digest []) refl refl refl refl refl refl refl refl

bare : bare_id (codes " <1@x> ") ≡ codes "1@x"
unfolding bare_id strip lstrip rstrip lstrip_by rstrip_by
bare = refl

recipients : recipient_list refused.rcpt ≡ codes "a@x" ∷ codes "b@x" ∷ []
unfolding recipient_list sorted_set insert_item text_lt strip lstrip rstrip lower has bytes_eq
recipients = refl
