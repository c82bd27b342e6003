-- ===== src/Podop/Dict/Tests.antt =====
-- Runs of the connection to Dovecot.
use mailu.Prelude.{
  ◌≡◌, refl, true, none, some, [], ◌∷◌, if◌then◌else◌, Bytes, codes, bytes_eq, is_digit, split_on,
  Dict,
}
use mailu.Podop.Dict.{
  pos, str_type, missing, rows, Table, Env, State, new_connection, commit, stored, user_of, lstrip,
  rstrip, split_key, split_once, int, int_digits, signed, namespace,
}
use mailu.Podop.Dict.Handlers.{
  commit_call, commit_done, commit_end, set_call, done, data_received, data_type, process_hello,
  process_begin, process_set, command, hello_args, begin_args, set_args, commit_args, process_lines,
}
use mailu.Podop.Dict.Handlers.Transactions.{
  request, gathered, calls, Committed, process_commit-newest,
}
use mailu.Podop.Dict.Handlers.World.{
  connected, receive, received, Reach, begin, next, SameKeys, Reach-SameKeys,
}

abbrev quota : Table
quota = record { get = λ key ns. missing; iter = λ key. rows []; set = λ key value ns. true }

abbrev env : Env
env = record {
  table_map = λ name. if bytes_eq name (codes "quota") then some quota else none;
  decode = λ b. some b;
  encode = λ b. b;
  loads = λ b. some b;
}

abbrev greeted : State
greeted = record {
  version = some (pos 2, pos 1);
  value_type = some str_type;
  user = some (codes "a@b.c");
  dict = some quota;
  transactions = [];
  transactions_user = [];
}

abbrev items : Dict Bytes
items =
    (codes "priv/size", codes "7")
    ∷ (codes "shared/n", codes "1")
    ∷ (codes "priv/size", codes "5")
    ∷ []

process_commit-newest_example :
    (s' : State) × (request env greeted (codes "1") none items ≡ done s')
    × Committed env (codes "1") (codes "a@b.c") items s'
unfolding user_of set_call split_key split_once namespace bytes_eq
process_commit-newest_example =
    process_commit-newest env quota greeted (codes "1") none (codes "a@b.c") items refl
      (λ name json ns. refl) refl refl

-- the calls of the commit above
newest_sent :
    calls env (some (codes "a@b.c")) (gathered items)
    ≡ stored (codes "size") (codes "7") (some (codes "a@b.c"))
      ∷ stored (codes "n") (codes "1") none
      ∷ []
unfolding set_call split_key split_once namespace bytes_eq
newest_sent = refl

abbrev packet : Bytes
packet = codes "H2\t1\t0\ta@b.c\tquota\nB1\tx@b.c\nS1\tpriv/k\t5\nC1\n"

hello_packet : (data_received env new_connection packet).1 ≡ some (commit (codes "1") ∷ [])
unfolding data_received process_lines new_connection command hello_args begin_args set_args
    commit_args process_hello process_begin process_set data_type int int_digits signed lstrip
    rstrip split_on user_of is_digit bytes_eq
hello_packet = refl

-- tasks run behind the whole packet: this commit finds the transaction that was begun after it, empty
begun_again :
    (data_received env greeted (codes "B1\nS1\tpriv/k\t5\nC1\nB1\n")).0.transactions
    ≡ (codes "1", []) ∷ []
unfolding data_received process_lines command begin_args set_args commit_args process_begin
    process_set lstrip rstrip split_on user_of bytes_eq
begun_again = refl

-- an unknown command aborts the connection
unknown : (data_received env greeted (codes "C1\nXy\n")).1 ≡ none
unfolding data_received process_lines command commit_args lstrip rstrip split_on
unknown = refl

reached : Reach env (receive env packet connected)
unfolding connected
reached = next begin (received connected packet refl)

Reach-SameKeys_example : SameKeys (receive env packet connected).state
unfolding receive connected data_received process_lines new_connection command hello_args begin_args
    set_args commit_args process_hello process_begin process_set data_type int int_digits signed
    lstrip rstrip split_on user_of is_digit bytes_eq
Reach-SameKeys_example = Reach-SameKeys reached refl

abbrev begun : State
begun = record greeted {
  transactions = (codes "1", (codes "priv/k", codes "5") ∷ []) ∷ [];
  transactions_user = (codes "1", codes "x@b.c") ∷ [];
}

-- two commits of one transaction at a time: when the first is done, the second does not find the user of
-- its next item, and it is never acknowledged
overlapped :
    (commit_call env (commit_done begun (codes "1")).0 (codes "1") (codes "priv/k", codes "5")
      ≡ none)
    × (commit_done (commit_done begun (codes "1")).0 (codes "1") ≡ (greeted, []))
unfolding commit_done commit_call commit_end set_call split_key split_once namespace bytes_eq
overlapped = (refl, refl)
