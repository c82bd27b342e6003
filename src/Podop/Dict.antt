-- ===== src/Podop/Dict.antt =====
-- `DictProtocol` of core/base/libs/podop/podop/dovecot.py: the requests of a connection to Dovecot.
-- The table behind it and the codecs of the standard library that may fail are arguments; which
-- of the pending tasks of the event loop goes on is left open. Handlers has the tasks as they are where
-- nothing comes between their awaits, Handlers/World what the others may do to the transactions.
pub mod Handlers
mod Tests
use mailu.Prelude.{
  ℕ, zero, suc, ◌+◌, ◌-◌, ◌*◌, Bool, true, false, ◌&&◌, ◌||◌, Option, none, some, List, [], ◌∷◌,
  ◌++◌, map, leb, ◌==◌, if◌then◌else◌, Bytes, codes, bytes_eq, is_digit, Dict,
}
use mailu.Podop.Escape.{tabescape}

-- Python's `int`
pub data ℤ : Type 0 where
  pos : ℕ → ℤ
  negsuc : ℕ → ℤ

pub data DataType : Type 0 where
  str_type : DataType
  int_type : DataType

-- how a call of the table's `get` ends: with a result, here in the encoding that is replied, with a
-- KeyError, or with another exception
pub data Found : Type 0 where
  found : Bytes → Found
  missing : Found
  failed : Found

-- how a call of `iter` ends
pub data Listing : Type 0 where
  rows : List Bytes → Listing
  unlisted : Listing
  broken : Listing

-- a table: `set` returns (true) or raises; a namespace is none where the source passes None
pub record Table : Type 0 where
  get : Bytes → Option Bytes → Found
  iter : Bytes → Listing
  pub set : Bytes → Bytes → Option Bytes → Bool

-- the tables by the name on the wire, UTF-8, and `json.loads`; none is an exception
pub record Env : Type 0 where
  pub table_map : Bytes → Option Table
  pub decode : Bytes → Option Bytes
  pub encode : Bytes → Bytes
  pub loads : Bytes → Option Bytes

-- the fields of the connection; none is an attribute that is not set yet
pub record State : Type 0 where
  pub version : Option (ℤ × ℤ)
  pub value_type : Option DataType
  pub user : Option Bytes
  pub dict : Option Table
  pub transactions : Dict (Dict Bytes)
  pub transactions_user : Dict Bytes

unfoldable pub new_connection : State
new_connection = record {
  version = none;
  value_type = none;
  user = none;
  dict = none;
  transactions = [];
  transactions_user = [];
}

-- a coroutine that a handler has returned
pub data Task : Type 0 where
  lookup : (key : Bytes) (user : Option Bytes) (is_iter : Bool) → Task
  iterate : (flags max_rows path : Bytes) (user : Option Bytes) → Task
  commit : (transaction_id : Bytes) → Task

-- what the outside sees: the bytes that one holder of the lock writes, and calls of the table's `set`
pub data Event : Type 0 where
  written : Bytes → Event
  stored : (key value : Bytes) (ns : Option Bytes) → Event

-- `bytes.strip()`
abbrev blank : ℕ → Bool
blank c = c == 32 || (leb 9 c && leb c 13)

unfoldable pub lstrip : Bytes → Bytes
lstrip [] = []
lstrip (c ∷ cs) = let rest = lstrip cs in if blank c then rest else c ∷ cs

abbrev rcons : ℕ → Bytes → Bytes
rcons c [] = if blank c then [] else c ∷ []
rcons c (d ∷ ds) = c ∷ d ∷ ds

unfoldable pub rstrip : Bytes → Bytes
rstrip [] = []
rstrip (c ∷ cs) = rcons c (rstrip cs)

-- `text.split("/", 1)` into two parts; none is the ValueError of the assignment
abbrev put_left : ℕ → Option (Bytes × Bytes) → Option (Bytes × Bytes)
put_left x none = none
put_left x (some (left, right)) = some (x ∷ left, right)

unfoldable pub split_once : ℕ → Bytes → Option (Bytes × Bytes)
split_once d [] = none
split_once d (x ∷ xs) =
    let rest = put_left x (split_once d xs) in if x == d then some ([], xs) else rest

-- `int(text)`: white space around, a sign, and digits with single underscores between them
unfoldable pub int_digits : Bool → ℕ → Bytes → Option ℕ
int_digits after v [] = if after then some v else none
int_digits after v (c ∷ cs) =
    let more = int_digits true (v * 10 + (c - 48)) cs in
    let gap = int_digits false v cs in
    if is_digit c then more else if after && c == b'_' then gap else none

abbrev negated : ℕ → ℤ
negated zero = pos 0
negated (suc n) = negsuc n

unfoldable pub signed : Bytes → Option ℤ
unfolding int_digits
signed [] = none
signed (c ∷ cs) =
    if c == b'-'
    then elim (int_digits false 0 cs) [ none ↦ none | some n ↦ some (negated n) ]
    else elim (int_digits false 0 (if c == b'+' then cs else c ∷ cs)) [
      | none ↦ none
      | some n ↦ some (pos n)
    ]

unfoldable pub int : Bytes → Option ℤ
unfolding lstrip rstrip signed
int text = signed (rstrip (lstrip text))

abbrev pub join_tab : List Bytes → Bytes
join_tab [] = []
join_tab (a ∷ []) = a
join_tab (a ∷ b ∷ more) = a ++ (b'\t' ∷ join_tab (b ∷ more))

-- the three writes under one lock
unfoldable pub reply : Bytes → List Bytes → Event
reply command args = written (command ++ (join_tab (map tabescape args) ++ b'\n' ∷ []))

-- `user.decode("utf8") if user else self.user`; none is an exception
unfoldable pub user_of : Env → State → Option Bytes → Option Bytes
user_of env s none = s.user
user_of env s (some []) = s.user
user_of env s (some (c ∷ cs)) = env.decode (c ∷ cs)

abbrev is_priv : Bytes → Bool
is_priv key_type = bytes_eq key_type (codes "priv")

-- `key.decode("utf8").split("/", 1)`
unfoldable pub split_key : Env → Bytes → Option (Bytes × Bytes)
split_key env key = elim (env.decode key) [ none ↦ none | some text ↦ split_once b'/' text ]

-- the namespace of a key: none is an exception, some none is None
unfoldable pub namespace : Bytes → Option Bytes → Option (Option Bytes)
namespace key_type user =
    if is_priv key_type then elim user [ none ↦ none | some u ↦ some (some u) ] else some none

unfoldable pub answer : Bytes → Bool → Found → Option Event
unfolding reply
answer orig_key is_iter (found response) =
    some (reply (codes "O") (if is_iter then orig_key ∷ response ∷ [] else response ∷ []))
answer orig_key is_iter missing = some (reply (codes "N") [])
answer orig_key is_iter failed = none
