-- ===== src/Session/Operations.antt =====
-- `MailuSession`, its interface to the web framework, the tokens of the webmail, and the removal of
-- sessions.
pub mod Saved
pub mod Ended
pub mod Tokens
pub mod Prune
mod Tests
use mailu.Prelude.{
  ℕ, ◌+◌, Bool, true, false, not, ◌&&◌, Option, none, some, List, [], ◌∷◌, ◌++◌, if◌then◌else◌,
  is_some, length, filter, Bytes, codes, bytes_eq, member, Dict, get_item, set_item, del_item,
}
use mailu.Session.{
  Store, pickled, plain, get, put, delete_key, starts_with, list_keys, Config, gen_uid, gen_sid,
  gen_created, Parts, parse_key,
}

-- none is None; the items are the dict that the class extends
pub record Session : Type 0 where
  pub uid : Option Bytes
  pub sid_part : Option Bytes
  pub created : Option Bytes
  pub key : Option Bytes
  pub items : Dict Bytes
  pub is_new : Bool
  pub modified : Bool

abbrev pub user_key : Bytes
user_key = codes "_user_id"

abbrev pub token_key : Bytes
token_key = codes "webmail_token"

unfoldable pub new_session : ℕ → Session
new_session now = record {
  uid = none;
  sid_part = none;
  created = some (gen_created now);
  key = none;
  items = [];
  is_new = true;
  modified = false;
}

abbrev found_session : Bytes → Parts → Dict Bytes → Session
found_session key parts items = record {
  uid = some parts.uid;
  sid_part = some parts.sid;
  created = some parts.crt;
  key = some key;
  items = items;
  is_new = false;
  modified = false;
}

-- `MailuSession(key, app)`
unfoldable pub open_session : Config → ℕ → Store → Option Bytes → Session
unfolding new_session get
open_session config now store none = new_session now
open_session config now store (some key) = elim (parse_key config now key) [
  | none ↦ new_session now
  | some parts ↦ elim (get now key store) [
    | none ↦ new_session now
    | some (plain text) ↦ new_session now
    | some (pickled items) ↦ found_session key parts items
  ]
]

-- the property `sid`
unfoldable pub sid : Session → Option Bytes
sid s = elim s.sid_part [
  | none ↦ none
  | some a ↦ elim s.uid [
    | none ↦ none
    | some u ↦ elim s.created [ none ↦ none | some c ↦ some (u ++ (a ++ c)) ]
  ]
]

abbrev delete_token : Bool → Dict Bytes → Store → Store
delete_token false items store = store
delete_token true items store = elim (get_item token_key items) [
  | none ↦ store
  | some token ↦ delete_key token store
]

unfoldable pub delete : Bool → Session × Store → Session × Store
unfolding delete_key
delete clear_token (s, store) = elim s.key [
  | none ↦ (s, store)
  | some key ↦ (record s { key = none }, delete_key key (delete_token clear_token s.items store))
]

abbrev emptied : Session × Store → Session × Store
emptied (s, store) = (
  record s {
    uid = none;
    sid_part = none;
    created = none;
    items = [];
    modified = true;
    is_new = false;
  },
  store,
)

unfoldable pub destroy : Session × Store → Session × Store
unfolding delete
destroy state = emptied (delete true state)

abbrev without_sid : Session × Store → Session × Store
without_sid (s, store) = (record s { sid_part = none; modified = true }, store)

unfoldable pub regenerate : Session × Store → Session × Store
unfolding delete
regenerate state = without_sid (delete false state)

abbrev or_empty : Option Bytes → Bytes
or_empty none = []
or_empty (some text) = text

-- the user id and the session id, where they are missing; whether the cookie is to be set
unfoldable pub identified : Config → Bytes → Session → Session
identified config random s = record s {
  uid = elim s.uid [
    | none ↦ some (gen_uid config (or_empty (get_item user_key s.items)))
    | some u ↦ some u
  ];
  sid_part = elim s.sid_part [ none ↦ some (gen_sid random) | some a ↦ some a ];
}

abbrev put_token : Config → ℕ → Bool → Bytes → Dict Bytes → Store → Store
put_token config now false key items store = store
put_token config now true key items store = elim (get_item token_key items) [
  | none ↦ store
  | some token ↦ put now token (plain key) config.lifetime store
]

-- `key != self._key`
abbrev is_stale : Bytes → Option Bytes → Bool
is_stale key none = true
is_stale key (some old) = not (bytes_eq old key)

abbrev stored : Config → ℕ → Bytes → Session × Store → Session × Store
stored config now key (s, store) = (
  record s { key = some key; is_new = false; modified = false },
  put now key (pickled s.items) config.timeout store,
)

-- the session and the store behind `save`, and whether to set the cookie; none is the exception of the
-- store at a key that is None
unfoldable pub save : Config → ℕ → Bytes → Session × Store → Option ((Session × Store) × Bool)
unfolding identified sid delete put
save config now random (s, store) =
    let set_cookie = not (is_some s.sid_part) in
    let s' = identified config random s in
    elim (sid s') [
      | none ↦ none
      | some key ↦
          let store' = put_token config now set_cookie key s.items store in
          some (
            stored config now key
                (if is_stale key s.key then delete true (s', store') else (s', store')),
            set_cookie,
          )
    ]

pub data Cookie : Type 0 where
  unchanged : Cookie
  deleted : Cookie
  set_to : Option Bytes → Cookie

abbrev answered : Option ((Session × Store) × Bool) → Option (Store × Cookie)
answered none = none
answered (some ((s, store), true)) = some (store, set_to (sid s))
answered (some ((s, store), false)) = some (store, unchanged)

-- `save_session`
unfoldable pub save_session : Config → ℕ → Bytes → Session × Store → Option (Store × Cookie)
unfolding save delete sid
save_session config now random (s, store) = elim s.items [
  | [] ↦ if s.modified then some ((delete true (s, store)).1, deleted) else some (store, unchanged)
  | item ∷ items ↦ answered (save config now random (s, store))
]

-- `gen_temp_token`: a session without an id has nothing to store
unfoldable pub gen_temp_token :
    Config → ℕ → Bytes → Session × Store → Option (Bytes × Session × Store)
unfolding sid put
gen_temp_token config now fresh (s, store) =
    let token : Bytes = elim (get_item token_key s.items) [ none ↦ fresh | some t ↦ t ] in
    elim (sid s) [
      | none ↦ none
      | some key ↦ some (
        token,
        record s { items = set_item token_key token s.items; modified = true },
        put now token (plain key) config.lifetime store,
      )
    ]

-- `verify_temp_token`: an exception is as good as a refusal
unfoldable pub verify_temp_token : Config → ℕ → Store → Bytes → Bytes → Bool
unfolding get open_session starts_with
verify_temp_token config now store email token =
    if starts_with (codes "token-") token
    then elim (get now token store) [
      | some (plain (c ∷ sessid)) ↦
          bytes_eq
            (or_empty (get_item user_key (open_session config now store (some (c ∷ sessid))).items))
            email
      | _ ↦ false
    ]
    else false

-- `prune_sessions` and its count
abbrev prunes : List Bytes → Bytes → Bool
prunes keep key = not (member key keep) && not (starts_with (codes "token-") key)

abbrev delete_keys : List Bytes → Store → Store
delete_keys [] store = store
delete_keys (k ∷ ks) store = delete_keys ks (del_item k store)

unfoldable pub prune_sessions : Config → ℕ → Option Bytes → List Bytes → Store → Store × ℕ
unfolding list_keys
prune_sessions config now user keep store =
    let prefix : Option Bytes = elim user [ none ↦ none | some u ↦ some (gen_uid config u) ] in
    let gone = filter (prunes keep) (list_keys now prefix store) in
    (delete_keys gone store, length gone)

-- a turn of the loop of `cleanup_sessions`, with its count; none is a KeyError
unfoldable pub cleanup_key : Config → ℕ → Bytes → Store → Option (Store × ℕ)
unfolding get delete_key starts_with
cleanup_key config now key store =
    if starts_with (codes "token-") key
    then elim (get now key store) [
      | none ↦ none
      | some (plain []) ↦ some (delete_key key store, 1)
      | some (plain (c ∷ sessid)) ↦
          if is_some (parse_key config now (c ∷ sessid))
          then some (store, 0)
          else some (delete_key key (delete_key (c ∷ sessid) store), 1)
      | some (pickled items) ↦ some (delete_key key store, 1)
    ]
    else if is_some (parse_key config now key)
    then some (store, 0)
    else some (delete_key key store, 1)

unfoldable pub cleanup_keys : Config → ℕ → List Bytes → Store → Option (Store × ℕ)
unfolding cleanup_key
cleanup_keys config now [] store = some (store, 0)
cleanup_keys config now (k ∷ ks) store = elim (cleanup_key config now k store) [
  | none ↦ none
  | some (store', n) ↦ elim (cleanup_keys config now ks store') [
    | none ↦ none
    | some (store'', m) ↦ some (store'', n + m)
  ]
]

unfoldable pub cleanup_sessions : Config → ℕ → Store → Option (Store × ℕ)
unfolding list_keys cleanup_keys
cleanup_sessions config now store = cleanup_keys config now (list_keys now none store) store
