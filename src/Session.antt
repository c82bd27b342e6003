-- ===== src/Session.antt =====
-- core/admin/mailu/utils.py: the sessions of the web interface. The store is that of Redis, where a key
-- is a text, an entry may have a time from which it is gone, and time is in seconds. A pickled session reads back
-- as it was, and other values are no pickle. The keyed hash and the random bits are arguments.
pub mod Base64
pub mod Keys
pub mod Operations
use mailu.Prelude.{
  ℕ, zero, suc, ◌+◌, ◌*◌, ◌/◌, ◌%◌, Bool, true, false, not, ◌&&◌, ◌||◌, Option, none, some, List,
  [], ◌∷◌, ltb, leb, ◌==◌, if◌then◌else◌, is_some, length, take, drop, filter, Bytes, Dict,
  get_item, set_item, del_item,
}
use mailu.Session.Base64.{encode, decode}

-- a value of the store: a session, or the session id behind the token of the webmail
pub data Value : Type 0 where
  pickled : Dict Bytes → Value
  plain : Bytes → Value

-- an entry, and the time from which it is gone, if there is one
pub record Entry : Type 0 where
  pub value : Value
  pub expires_at : Option ℕ

abbrev pub Store : Type 0
Store = Dict Entry

unfoldable pub is_alive : ℕ → Entry → Bool
is_alive now entry = elim entry.expires_at [ none ↦ true | some t ↦ ltb now t ]

abbrev pub read_entry : ℕ → Option Entry → Option Value
read_entry now none = none
read_entry now (some entry) = if is_alive now entry then some entry.value else none

-- `RedisStore`; none is a KeyError
unfoldable pub get : ℕ → Bytes → Store → Option Value
unfolding is_alive
get now key store = read_entry now (get_item key store)

abbrev pub expiry : ℕ → ℕ → Option ℕ
expiry zero now = none
expiry (suc n) now = some (now + suc n)

-- a ttl of 0 is none
unfoldable pub put : ℕ → Bytes → Value → ℕ → Store → Store
put now key value ttl store =
    set_item key (record { value = value; expires_at = expiry ttl now }) store

unfoldable pub delete_key : Bytes → Store → Store
delete_key key store = del_item key store

unfoldable pub starts_with : Bytes → Bytes → Bool
starts_with [] text = true
starts_with (p ∷ prefix) [] = false
starts_with (p ∷ prefix) (c ∷ text) = p == c && starts_with prefix text

unfoldable pub keys : ℕ → Store → List Bytes
unfolding is_alive
keys now [] = []
keys now ((k, entry) ∷ store) =
    let rest = keys now store in if is_alive now entry then k ∷ rest else rest

unfoldable pub list_keys : ℕ → Option Bytes → Store → List Bytes
unfolding keys
list_keys now none store = keys now store
list_keys now (some prefix) store = filter (starts_with prefix) (keys now store)

-- `MailuSessionConfig`, PERMANENT_SESSION_LIFETIME and SESSION_TIMEOUT: `uid_hash` is the keyed hash, cut to its length
pub record Config : Type 0 where
  pub uid_hash : Bytes → Bytes
  pub uid_len : ℕ
  pub sid_len : ℕ
  pub lifetime : ℕ
  pub timeout : ℕ

abbrev pub time_bytes : ℕ
time_bytes = 4

unfoldable pub zero_bytes : ℕ → Bytes
zero_bytes zero = []
zero_bytes (suc n) = 0 ∷ zero_bytes n

unfoldable pub uid_b64 : Config → ℕ
uid_b64 config = length (encode (zero_bytes config.uid_len))

unfoldable pub key_min : Config → ℕ
key_min config = uid_b64 config + length (encode (zero_bytes config.sid_len))

unfoldable pub key_max : Config → ℕ
key_max config = key_min config + length (encode (zero_bytes time_bytes))

unfoldable pub gen_uid : Config → Bytes → Bytes
gen_uid config uid = encode (config.uid_hash uid)

unfoldable pub gen_sid : Bytes → Bytes
gen_sid random = encode random

-- the big-endian bytes of a number below 256 ^ fuel, in front of `acc`, without zeros at the left
unfoldable pub bytes_of : ℕ → ℕ → Bytes → Bytes
bytes_of zero n acc = acc
bytes_of (suc fuel) n acc =
    let more = bytes_of fuel (n / 256) ((n % 256) ∷ acc) in if n == 0 then acc else more

-- the seconds of the clock fit the eight bytes
unfoldable pub gen_created : ℕ → Bytes
unfolding bytes_of
gen_created now = encode (bytes_of 8 now [])

-- `int.from_bytes(…, byteorder='big')`, from the number in front
unfoldable pub from_bytes : ℕ → Bytes → ℕ
from_bytes v [] = v
from_bytes v (b ∷ bs) = from_bytes (v * 256 + b) bs

pub record Parts : Type 0 where
  pub uid : Bytes
  pub sid : Bytes
  pub crt : Bytes

unfoldable pub is_current : Config → ℕ → ℕ → Bool
is_current config now created = leb created now && leb now (created + config.lifetime)

unfoldable pub parse_parts : Config → ℕ → Parts → Option Parts
unfolding from_bytes is_current
parse_parts config now parts = elim (decode parts.crt) [
  | none ↦ none
  | some created ↦
      if not (is_some (decode parts.uid)) || not (is_some (decode parts.sid))
      then none
      else if is_current config now (from_bytes 0 created)
      then some parts
      else none
]

-- `parse_key`, for a key that is a text
unfoldable pub parse_key : Config → ℕ → Bytes → Option Parts
unfolding key_min key_max uid_b64 parse_parts
parse_key config now key =
    if leb (key_min config) (length key) && leb (length key) (key_max config)
    then parse_parts config now (record {
      uid = take (uid_b64 config) key;
      sid = drop (uid_b64 config) (take (key_min config) key);
      crt = drop (key_min config) key;
    })
    else none
