-- ===== src/Quarantine/Greylist.antt =====
-- core/admin/mailu/greylist.py: messages that are refused for now, over the files of the quarantine. The
-- SHA-256 in hexadecimal is an argument; a score is the text of a finite number, or none.
pub mod Retry
mod Tests
use mailu.Prelude.{
  ℕ, Bool, true, false, not, ◌&&◌, ◌||◌, Option, none, some, List, [], ◌∷◌, map, ltb, leb, ◌==◌,
  if◌then◌else◌, length, take, filter, any, Bytes, codes, has, member, lower,
}
use mailu.Mail.Columns.{strip, sorted_set}
use mailu.Uuid.{lstrip_by, rstrip_by}
use mailu.Quarantine
use mailu.Quarantine.{
  greylist, Field, null, text, texts, Metadata, Root, Clock, is_message_key, store, cleanup_expired,
}

-- the metadata of the hook, by the names that are asked for
pub record Report : Type 0 where
  pub message_id : Option Bytes
  pub message_id_dashed : Option Bytes
  pub action : Bytes
  pub from : Option Bytes
  pub sender : Option Bytes
  pub subject : Option Bytes
  pub rcpt : List Bytes
  pub score : Option Bytes

abbrev retention_days : ℕ
retention_days = 7

abbrev max_entries : ℕ
max_entries = 10000

abbrev angle : ℕ → Bool
angle c = c == b'<' || c == b'>'

-- `strip().strip('<>').strip()`
unfoldable pub bare_id : Bytes → Bytes
unfolding strip lstrip_by rstrip_by
bare_id message_id = strip (rstrip_by angle (lstrip_by angle (strip message_id)))

abbrev first_of : Option Bytes → Option Bytes → Option Bytes
first_of none other = other
first_of (some []) other = other
first_of (some (c ∷ cs)) other = some (c ∷ cs)

-- `_key`
unfoldable pub key_of : (Bytes → Bytes) → Option Bytes → Option Bytes
unfolding bare_id
key_of sha256 none = none
key_of sha256 (some message_id) =
    let id = bare_id message_id in
    if length id == 0 || ltb 998 (length id) || any (λ c. ltb c 32) id
    then none
    else some (sha256 id)

-- `_recipient_list`, of a list
unfoldable pub recipient_list : List Bytes → List Bytes
unfolding sorted_set strip lower
recipient_list value = sorted_set (
    map (λ item. lower (strip item))
      (filter (λ item. has b'@' item && leb (length item) 320) value))

abbrev or_text : Option Bytes → Bytes
or_text none = []
or_text (some t) = t

abbrev score_field : Option Bytes → Field
score_field none = null
score_field (some t) = text t

unfoldable pub entry_of : Clock → Bytes → Report → Metadata
unfolding recipient_list bare_id
entry_of clock message_id m = record {
  kind = none;
  received = some (clock.strftime clock.now);
  fields =
      (codes "message_id", text (bare_id message_id))
      ∷ (codes "from", text (take 512 (or_text (first_of m.from m.sender))))
      ∷ (codes "subject", text (take 998 (or_text m.subject)))
      ∷ (codes "recipients", texts (recipient_list m.rcpt))
      ∷ (codes "score", score_field m.score)
      ∷ [];
  id = none;
  size = none;
  greylisted = false;
}

abbrev pub rejections : List Bytes
rejections = codes "soft reject" ∷ codes "soft_reject" ∷ codes "greylist" ∷ []

abbrev pub acceptances : List Bytes
acceptances = codes "no action" ∷ codes "accept" ∷ codes "add header" ∷ codes "rewrite subject" ∷ []

abbrev pub action_of : Report → Bytes
action_of m = lower (strip m.action)

abbrev id_of : Report → Option Bytes
id_of m = first_of m.message_id m.message_id_dashed

abbrev stored_as : Root → Option (Root × Bytes) → Root × Option Bool
stored_as root none = (root, none)
stored_as root (some (root', id)) = (root', some true)

-- `record`: what it returns is none, false or true; `store` does not raise at the key of a digest
unfoldable pub record_report :
    (Bytes → Bytes) → Clock → Root → Report → Option Bytes → Root × Option Bool
unfolding key_of entry_of store
record_report sha256 clock root m raw_message = elim (key_of sha256 (id_of m)) [
  | none ↦ (root, none)
  | some key ↦
      if not (member (action_of m) rejections)
      then (if member (action_of m) acceptances
          then ((Quarantine.delete root key (some greylist)).0, some false)
          else (root, some false))
      else stored_as root
          (store clock root key raw_message (entry_of clock (or_text (id_of m)) m) greylist)
]

unfoldable pub clear : (Bytes → Bytes) → Root → Report → Root × Bool
unfolding key_of
clear sha256 root m = elim (key_of sha256 (id_of m)) [
  | none ↦ (root, false)
  | some key ↦ Quarantine.delete root key (some greylist)
]

unfoldable pub cleanup : Clock → ℕ → Root → Root × ℕ
unfolding cleanup_expired
cleanup clock quarantine_days root = cleanup_expired clock quarantine_days retention_days root

unfoldable pub list_entries : Clock → ℕ → Root → Root × List Metadata
unfolding cleanup
list_entries clock quarantine_days root =
    let root' = (cleanup clock quarantine_days root).0 in
    (root', take max_entries (Quarantine.entries root' (some greylist)))

unfoldable pub get_entry : Clock → Root → Bytes → Root × Option (Metadata × Bytes)
unfolding is_message_key
get_entry clock root record_id =
    if is_message_key record_id
    then Quarantine.get clock root record_id greylist retention_days
    else (root, none)

unfoldable pub delete_entry : Root → Bytes → Root × Bool
unfolding is_message_key
delete_entry root record_id =
    if is_message_key record_id
    then Quarantine.delete root record_id (some greylist)
    else (root, false)
