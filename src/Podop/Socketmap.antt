-- ===== src/Podop/Socketmap.antt =====
-- `SocketmapProtocol` of core/base/libs/podop/podop/postfix.py: the answers to the lookups of Postfix.
mod Answers
mod Tests
use mailu.Prelude.{suc, Option, none, some, List, [], ◌∷◌, ◌++◌, take, drop, Bytes, codes}
use mailu.Podop.Dict.{Found, found, missing, failed}
use mailu.Podop.Netstring.{Netstring, find, receive, send_string}

-- the tables by their names, each by its `get`, whose result is here as `str` shows it in UTF-8; the
-- decoding of ASCII and of UTF-8, where none is a UnicodeDecodeError
pub record Maps : Type 0 where
  pub table_map : Bytes → Option (Bytes → Found)
  pub ascii : Bytes → Option Bytes
  pub utf8 : Bytes → Option Bytes

-- `process_request`: the table of an unknown name is None, and `None.get` an exception like others
unfoldable pub answer : Found → Bytes
answer (found result) = codes "OK " ++ result
answer missing = codes "NOTFOUND "
answer failed = codes "TEMP unknown error"

unfoldable pub process_request : Maps → Bytes → Bytes → Bytes
unfolding answer
process_request maps name key = elim (maps.table_map name) [
  | none ↦ send_string (answer failed)
  | some get ↦ send_string (answer (get key))
]

-- the reply to a string: none is an exception, and a string without a space has no reply
unfoldable pub string_received : Maps → Bytes → Option (Option Bytes)
unfolding process_request
string_received maps string = elim (find 32 string) [
  | none ↦ some none
  | some space ↦ elim (maps.ascii (take space string)) [
    | none ↦ none
    | some name ↦ elim (maps.utf8 (drop (suc space) string)) [
      | none ↦ none
      | some key ↦ some (some (process_request maps name key))
    ]
  ]
]

abbrev add_reply : Option Bytes → List Bytes → List Bytes
add_reply none replies = replies
add_reply (some reply) replies = reply ∷ replies

-- the replies to strings in their order
unfoldable pub replies_to : Maps → List Bytes → Option (List Bytes)
unfolding string_received
replies_to maps [] = some []
replies_to maps (string ∷ strings) = elim (string_received maps string) [
  | none ↦ none
  | some reply ↦ elim (replies_to maps strings) [
    | none ↦ none
    | some replies ↦ some (add_reply reply replies)
  ]
]

-- a connection: what the reads of it deliver is answered
unfoldable pub serve : Maps → List Bytes → Netstring → Option (Netstring × List Bytes)
unfolding replies_to
serve maps reads s = elim (receive reads s) [
  | none ↦ none
  | some (s', strings) ↦ elim (replies_to maps strings) [
    | none ↦ none
    | some replies ↦ some (s', replies)
  ]
]
