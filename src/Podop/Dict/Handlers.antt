-- ===== src/Podop/Dict/Handlers.antt =====
-- The handlers of the six commands, `data_received`, and the tasks that it starts.
pub mod Transactions
pub mod World
pub mod Replies
use mailu.Prelude.{
  ℕ, zero, suc, Bool, true, false, Option, none, some, List, [], ◌∷◌, ◌++◌, ◌==◌, if◌then◌else◌,
  take, Bytes, codes, split_on, Dict, get_item, set_item, del_item, has_key,
}
use mailu.Podop.Dict.{
  pos, negsuc, ℤ, DataType, str_type, int_type, rows, unlisted, broken, Table, Env, State, Task,
  lookup, iterate, commit, Event, written, stored, lstrip, rstrip, split_once, int, reply, user_of,
  split_key, namespace, answer,
}

-- `process_lookup`: the reply, or none for an exception
unfoldable pub process_lookup : Env → State → Bytes → Option Bytes → Bool → Option Event
unfolding split_key user_of namespace answer
process_lookup env s key user is_iter = elim (split_key env key) [
  | none ↦ none
  | some (key_type, name) ↦ elim (namespace key_type (user_of env s user)) [
    | none ↦ none
    | some ns ↦ elim s.dict [ none ↦ none | some table ↦ answer key is_iter (table.get name ns) ]
  ]
]

-- `if max_rows > 0 and i >= max_rows: break`
unfoldable pub limited : ℤ → List Bytes → List Bytes
limited (pos zero) names = names
limited (pos (suc n)) names = take (suc n) names
limited (negsuc n) names = names

-- the rows one after another: the events, and whether each one has returned
unfoldable pub lookup_rows : Env → State → Bytes → Option Bytes → List Bytes → List Event × Bool
unfolding process_lookup
lookup_rows env s path user [] = ([], true)
lookup_rows env s path user (k ∷ ks) =
    elim (process_lookup env s (env.encode (path ++ k)) user true) [
      | none ↦ ([], false)
      | some event ↦ let (events, ok) = lookup_rows env s path user ks in (event ∷ events, ok)
    ]

-- the empty line behind the rows
abbrev finish_rows : List Event × Bool → List Event
finish_rows (events, true) = events ++ written (codes "\n") ∷ []
finish_rows (events, false) = events

unfoldable pub iterate_table : Env → State → ℤ → Bytes → Bytes → Option Bytes → List Event
unfolding limited reply lookup_rows
iterate_table env s max_rows path name user = elim s.dict [
  | none ↦ []
  | some table ↦ elim (table.iter name) [
    | rows names ↦ finish_rows (lookup_rows env s path user (limited max_rows names))
    | unlisted ↦ reply (codes "F") [] ∷ []
    | broken ↦ []
  ]
]

unfoldable pub process_iterate : Env → State → Bytes → Bytes → Bytes → Option Bytes → List Event
unfolding iterate_table split_once int reply
process_iterate env s flags max_rows path user = elim (env.decode path) [
  | none ↦ []
  | some text ↦ elim (split_once b'/' text) [
    | none ↦ []
    | some (key_type, name) ↦ elim (int max_rows) [
      | none ↦ []
      | some limit ↦ elim (int flags) [
        | some (pos zero) ↦ iterate_table env s limit text name user
        | none ↦ []
        | _ ↦ reply (codes "F") [] ∷ []
      ]
    ]
  ]
]

-- one call of the table's `set`: none is an exception before it
unfoldable pub set_call : Env → Option Bytes → Bytes × Bytes → Option (Bytes × Bytes × Option Bytes)
unfolding split_key namespace
set_call env user (key, value) = elim (split_key env key) [
  | none ↦ none
  | some (key_type, name) ↦ elim (env.loads value) [
    | none ↦ none
    | some json ↦ elim (namespace key_type user) [ none ↦ none | some ns ↦ some (name, json, ns) ]
  ]
]

-- the loop of `process_commit`: the calls that are made, and whether all have returned
unfoldable pub commit_items : Env → Option Table → Option Bytes → Dict Bytes → List Event × Bool
unfolding set_call
commit_items env dict user [] = ([], true)
commit_items env none user (item ∷ items) = ([], false)
commit_items env (some table) user (item ∷ items) = elim (set_call env user item) [
  | none ↦ ([], false)
  | some (name, json, ns) ↦
      let (events, ok) = commit_items env (some table) user items in
      if table.set name json ns
      then (stored name json ns ∷ events, ok)
      else (stored name json ns ∷ [], false)
]

abbrev drop_transaction : Bytes → State → State
drop_transaction transaction_id s = record s {
  transactions = del_item transaction_id s.transactions;
  transactions_user = del_item transaction_id s.transactions_user;
}

-- behind the loop; without a user the second `del` raises, when the first is done
unfoldable pub commit_end : State → Bytes → List Event × Bool → State × List Event
unfolding reply
commit_end s transaction_id (events, false) = (s, events)
commit_end s transaction_id (events, true) = (
  drop_transaction transaction_id s,
  if has_key transaction_id s.transactions_user
      then events ++ reply (codes "O") (transaction_id ∷ []) ∷ []
      else events,
)

-- `process_commit`, where no request and no other commit comes between its awaits
unfoldable pub process_commit : Env → State → Bytes → State × List Event
unfolding commit_items commit_end
process_commit env s transaction_id = elim (get_item transaction_id s.transactions) [
  | none ↦ (s, [])
  | some items ↦
      commit_end s transaction_id
        (commit_items env s.dict (get_item transaction_id s.transactions_user) items)
]

-- `process_commit` in turns, for a commit between whose awaits other requests and tasks come: the call
-- of an item, as the dict and the user are at that time; none is an exception
unfoldable pub commit_call : Env → State → Bytes → Bytes × Bytes → Option Event
unfolding set_call
commit_call env s transaction_id item = elim s.dict [
  | none ↦ none
  | some table ↦ elim (set_call env (get_item transaction_id s.transactions_user) item) [
    | none ↦ none
    | some (name, json, ns) ↦ some (stored name json ns)
  ]
]

-- and its last turn, behind the loop; the first `del` raises where the transaction is gone
unfoldable pub commit_done : State → Bytes → State × List Event
unfolding commit_end
commit_done s transaction_id =
    if has_key transaction_id s.transactions
    then commit_end s transaction_id ([], true)
    else (s, [])

-- how a handler ends: with an exception, or with a coroutine or without one
pub data Handled : Type 0 where
  raised : State → Handled
  done : State → Handled
  later : Task → Handled

unfoldable pub data_type : Bytes → Option DataType
unfolding int
data_type value_type = elim (int value_type) [
  | some (pos zero) ↦ some str_type
  | some (pos (suc zero)) ↦ some int_type
  | _ ↦ none
]

-- `process_hello`: the fields are set one after another
unfoldable pub process_hello : Env → State → Bytes → Bytes → Bytes → Bytes → Bytes → Handled
unfolding int data_type
process_hello env s major minor value_type user dict_name = elim (int major) [
  | none ↦ raised s
  | some a ↦ elim (int minor) [
    | none ↦ raised s
    | some b ↦
        let s1 = record s { version = some (a, b) } in
        elim (data_type value_type) [
          | none ↦ raised s1
          | some t ↦
              let s2 = record s1 { value_type = some t } in
              elim (env.decode user) [
                | none ↦ raised s2
                | some u ↦
                    let s3 = record s2 { user = some u } in
                    elim (env.table_map dict_name) [
                      | none ↦ raised s3
                      | some table ↦ done (record s3 { dict = some table })
                    ]
              ]
        ]
  ]
]

-- `process_begin`: the transaction is there before its user is
unfoldable pub process_begin : Env → State → Bytes → Option Bytes → Handled
unfolding user_of
process_begin env s transaction_id user =
    let s1 = record s { transactions = set_item transaction_id [] s.transactions } in
    elim (user_of env s user) [
      | none ↦ raised s1
      | some u ↦
          done (record s1 { transactions_user = set_item transaction_id u s.transactions_user })
    ]

unfoldable pub process_set : State → Bytes → Bytes → Bytes → Handled
process_set s transaction_id key value = elim (get_item transaction_id s.transactions) [
  | none ↦ raised s
  | some items ↦ done (record s {
    transactions = set_item transaction_id (set_item key value items) s.transactions;
  })
]

-- the command behind a line's first byte, applied to its arguments: none is an unknown command
abbrev truthy : Bytes → Bool
truthy [] = false
truthy (c ∷ cs) = true

-- a wrong number of arguments is a TypeError
unfoldable pub hello_args : Env → State → List Bytes → Handled
unfolding process_hello
hello_args env s (major ∷ minor ∷ value_type ∷ user ∷ dict_name ∷ []) =
    process_hello env s major minor value_type user dict_name
hello_args env s _ = raised s

unfoldable pub lookup_args : State → List Bytes → Handled
lookup_args s (key ∷ []) = later (lookup key none false)
lookup_args s (key ∷ user ∷ []) = later (lookup key (some user) false)
lookup_args s (key ∷ user ∷ is_iter ∷ []) = later (lookup key (some user) (truthy is_iter))
lookup_args s _ = raised s

unfoldable pub iterate_args : State → List Bytes → Handled
iterate_args s (flags ∷ max_rows ∷ path ∷ []) = later (iterate flags max_rows path none)
iterate_args s (flags ∷ max_rows ∷ path ∷ user ∷ []) =
    later (iterate flags max_rows path (some user))
iterate_args s _ = raised s

unfoldable pub begin_args : Env → State → List Bytes → Handled
unfolding process_begin
begin_args env s (transaction_id ∷ []) = process_begin env s transaction_id none
begin_args env s (transaction_id ∷ user ∷ []) = process_begin env s transaction_id (some user)
begin_args env s (transaction_id ∷ user ∷ expire_secs ∷ []) =
    process_begin env s transaction_id (some user)
begin_args env s _ = raised s

unfoldable pub set_args : State → List Bytes → Handled
unfolding process_set
set_args s (transaction_id ∷ key ∷ value ∷ []) = process_set s transaction_id key value
set_args s _ = raised s

unfoldable pub commit_args : State → List Bytes → Handled
commit_args s (transaction_id ∷ []) = later (commit transaction_id)
commit_args s _ = raised s

-- `COMMANDS`; an unknown command aborts the connection as an exception does
unfoldable pub command : Env → State → ℕ → List Bytes → Handled
unfolding hello_args lookup_args iterate_args begin_args commit_args set_args
command env s c args =
    if c == b'H'
    then hello_args env s args
    else if c == b'L'
    then lookup_args s args
    else if c == b'I'
    then iterate_args s args
    else if c == b'B'
    then begin_args env s args
    else if c == b'C'
    then commit_args s args
    else if c == b'S'
    then set_args s args
    else raised s

abbrev add_task : Task → State × Option (List Task) → State × Option (List Task)
add_task task (s, none) = (s, none)
add_task task (s, some tasks) = (s, some (task ∷ tasks))

-- what a handler's end means for the rest of the packet
abbrev resume : State → (State → State × Option (List Task)) → Handled → State × Option (List Task)
resume s rest (raised s') = (s', none)
resume s rest (done s') = rest s'
resume s rest (later task) = add_task task (rest s)

-- the lines of a packet: the state, and the tasks in their order; none is an aborted connection,
-- whose coroutines are never run
unfoldable pub process_lines : Env → State → List Bytes → State × Option (List Task)
unfolding command lstrip rstrip
process_lines env s [] = (s, some [])
process_lines env s ([] ∷ more) = process_lines env s more
process_lines env s ((c ∷ []) ∷ more) = process_lines env s more
process_lines env s ((c ∷ d ∷ line) ∷ more) =
    resume s (λ s'. process_lines env s' more)
      (command env s c (split_on b'\t' (rstrip (lstrip (d ∷ line)))))

unfoldable pub data_received : Env → State → Bytes → State × Option (List Task)
unfolding process_lines
data_received env s data_ = process_lines env s (split_on b'\n' data_)
