-- ===== src/Podop/Dict/Handlers/World.antt =====
-- A connection over any sequence of packets and of turns of its tasks: the tables of the transactions.
use mailu.Prelude.{
  ℕ, ◌≡◌, refl, sym, inl, inr, Bool, true, false, Option, none, some, List, [], ◌∷◌, ◌++◌, arith,
  ◌==◌, if◌then◌else◌, Option-cases, Bytes, bytes_eq→eq, split_on, get_item, set_item, has_key,
  has_key-set_item, has_key-get_item, has_key-del_item,
}
use mailu.Podop.Dict.{Env, State, Task, commit, Event, user_of, new_connection, lstrip, rstrip}
use mailu.Podop.Dict.Handlers.{
  commit_end, Handled, raised, done, later, process_begin, process_set, command, hello_args,
  lookup_args, iterate_args, begin_args, set_args, commit_args, process_hello, process_lines,
  data_received, resume, commit_call, commit_done,
}

-- the connection, its pending tasks, the commits that are running, the calls and replies of commits, and
-- whether it is still open
pub record World : Type 0 where
  pub state : State
  pub pending : List Task
  pub running : List Bytes
  pub events : List Event
  pub is_open : Bool

unfoldable pub connected : World
connected = record {
  state = new_connection;
  pending = [];
  running = [];
  events = [];
  is_open = true;
}

abbrev take_up : World → State × Option (List Task) → World
take_up w (s, none) = record w { state = s; is_open = false }
take_up w (s, some tasks) = record w { state = s; pending = w.pending ++ tasks }

unfoldable pub receive : Env → Bytes → World → World
receive env data_ w = take_up w (data_received env w.state data_)

-- a commit starts, unless there is no such transaction
unfoldable pub start_commit : List Task → Bytes → List Task → World → World
start_commit before transaction_id behind w = record w {
  pending = before ++ behind;
  running =
      if has_key transaction_id w.state.transactions then transaction_id ∷ w.running else w.running;
}

abbrev one_event : Option Event → List Event
one_event none = []
one_event (some event) = event ∷ []

unfoldable pub call_set : Env → Bytes → Bytes × Bytes → World → World
call_set env transaction_id item w = record w {
  events = w.events ++ one_event (commit_call env w.state transaction_id item);
}

unfoldable pub finish_commit : List Bytes → Bytes → List Bytes → World → World
finish_commit before transaction_id behind w =
    let (s, events) = commit_done w.state transaction_id in
    record w { state = s; running = before ++ behind; events = w.events ++ events }

abbrev is_commit : Task → Bool
is_commit (commit transaction_id) = true
is_commit task = false

-- A running commit calls `set` for some item, fails, or is behind its loop: which items it comes upon is
-- left open, since a request may change the dict that it goes through. Lookups and iterations change
-- nothing here and are done at some time.
pub data Step (env : Env) : World → World → Type 0 where
  received : (w : World) (data_ : Bytes) → w.is_open ≡ true → Step env w (receive env data_ w)
  answered :
      (w : World) (before : List Task) (task : Task) (behind : List Task)
      → w.pending ≡ before ++ task ∷ behind
      → is_commit task ≡ false
      → Step env w (record w { pending = before ++ behind })
  started :
      (w : World) (before : List Task) (transaction_id : Bytes) (behind : List Task)
      → w.pending ≡ before ++ commit transaction_id ∷ behind
      → Step env w (start_commit before transaction_id behind w)
  called :
      (w : World) (before : List Bytes) (transaction_id : Bytes) (behind : List Bytes)
      (item : Bytes × Bytes)
      → w.running ≡ before ++ transaction_id ∷ behind
      → Step env w (call_set env transaction_id item w)
  failed :
      (w : World) (before : List Bytes) (transaction_id : Bytes) (behind : List Bytes)
      → w.running ≡ before ++ transaction_id ∷ behind
      → Step env w (record w { running = before ++ behind })
  finished :
      (w : World) (before : List Bytes) (transaction_id : Bytes) (behind : List Bytes)
      → w.running ≡ before ++ transaction_id ∷ behind
      → Step env w (finish_commit before transaction_id behind w)

pub data Reach (env : Env) : World → Type 0 where
  begin : Reach env connected
  next : {w w' : World} → Reach env w → Step env w w' → Reach env w'

-- every transaction has a user, and every user a transaction
pub record SameKeys (s : State) : Type 0 where
  pub same : (k : Bytes) → has_key k s.transactions ≡ has_key k s.transactions_user

-- for one key
abbrev SameAt : Bytes → State → Type 0
SameAt k s = has_key k s.transactions ≡ has_key k s.transactions_user

-- of a handler that has not raised
abbrev SameAfter : Bytes → Handled → Type 0
SameAfter k h = (s' : State) → h ≡ done s' → SameAt k s'

SameAfter-if :
    (k : Bytes) (b : Bool) (g h : Handled)
    → SameAfter k g
    → SameAfter k h
    → SameAfter k (if b then g else h)
SameAfter-if k true g h p q = p
SameAfter-if k false g h p q = q

module _ (k : Bytes) (env : Env) (s : State) (h : SameAt k s) where
  process_begin-SameAfter :
      (transaction_id : Bytes) (user : Option Bytes)
      → SameAfter k (process_begin env s transaction_id user)
  unfolding process_begin
  process_begin-SameAfter transaction_id user s' e = elim (Option-cases (user_of env s user)) [
    | inl bad ↦ absurd (ground arith)
    | inr (u, good) ↦ ground (
      arith,
      has_key-set_item transaction_id k [] s.transactions,
      has_key-set_item transaction_id k u s.transactions_user,
    )
  ]

  process_set-SameAfter :
      (transaction_id key value : Bytes) → SameAfter k (process_set s transaction_id key value)
  unfolding process_set
  process_set-SameAfter transaction_id key value s' e =
      elim (Option-cases (get_item transaction_id s.transactions)) [
        | inl bad ↦ absurd (ground arith)
        | inr (d, good) ↦ ground (
          arith,
          has_key-set_item transaction_id k (set_item key value d) s.transactions,
          has_key-get_item transaction_id s.transactions d,
          bytes_eq→eq transaction_id k,
        )
      ]

  process_hello-SameAfter :
      (major minor value_type user dict_name : Bytes)
      → SameAfter k (process_hello env s major minor value_type user dict_name)
  unfolding process_hello
  process_hello-SameAfter major minor value_type user dict_name s' e = ground arith

  hello_args-SameAfter : (args : List Bytes) → SameAfter k (hello_args env s args)
  unfolding hello_args
  hello_args-SameAfter (a ∷ b ∷ c ∷ d ∷ u ∷ []) s' e = process_hello-SameAfter a b c d u s' e
  hello_args-SameAfter args s' e = ground arith

  lookup_args-SameAfter : (args : List Bytes) → SameAfter k (lookup_args s args)
  unfolding lookup_args
  lookup_args-SameAfter args s' e = ground arith

  iterate_args-SameAfter : (args : List Bytes) → SameAfter k (iterate_args s args)
  unfolding iterate_args
  iterate_args-SameAfter args s' e = ground arith

  commit_args-SameAfter : (args : List Bytes) → SameAfter k (commit_args s args)
  unfolding commit_args
  commit_args-SameAfter args s' e = ground arith

  begin_args-SameAfter : (args : List Bytes) → SameAfter k (begin_args env s args)
  unfolding begin_args
  begin_args-SameAfter (a ∷ []) s' e = process_begin-SameAfter a none s' e
  begin_args-SameAfter (a ∷ b ∷ []) s' e = process_begin-SameAfter a (some b) s' e
  begin_args-SameAfter (a ∷ b ∷ c ∷ []) s' e = process_begin-SameAfter a (some b) s' e
  begin_args-SameAfter args s' e = ground arith

  set_args-SameAfter : (args : List Bytes) → SameAfter k (set_args s args)
  unfolding set_args
  set_args-SameAfter (a ∷ b ∷ c ∷ []) s' e = process_set-SameAfter a b c s' e
  set_args-SameAfter args s' e = ground arith

  command-SameAfter : (c : ℕ) (args : List Bytes) → SameAfter k (command env s c args)
  unfolding command
  command-SameAfter c args = SameAfter-if k (c == b'H') _ _ (hello_args-SameAfter args) (
      SameAfter-if k (c == b'L') _ _ (lookup_args-SameAfter args) (
        SameAfter-if k (c == b'I') _ _ (iterate_args-SameAfter args) (
          SameAfter-if k (c == b'B') _ _ (begin_args-SameAfter args) (
            SameAfter-if k (c == b'C') _ _ (commit_args-SameAfter args)
              (SameAfter-if k (c == b'S') _ _ (set_args-SameAfter args) (λ s' e. ground arith))))))

resume-SameAt :
    (k : Bytes) (s : State) (rest : State → State × Option (List Task)) (hd : Handled)
    → SameAt k s
    → SameAfter k hd
    → ((r t : State) (ts : List Task) → SameAt k r → rest r ≡ (t, some ts) → SameAt k t)
    → (s' : State) (tasks : List Task) → resume s rest hd ≡ (s', some tasks)
    → SameAt k s'
resume-SameAt k s rest (raised r) h a step s' tasks e = absurd (ground arith)
resume-SameAt k s rest (done r) h a step s' tasks e = step r s' tasks (a r refl) e
resume-SameAt k s rest (later task) h a step s' tasks e = elim (Option-cases (rest s).1) [
  | inl bad ↦ absurd (ground arith)
  | inr (ts, good) ↦ step s s' ts h (ground arith)
]

module _ (k : Bytes) (env : Env) where
  process_lines-SameAt :
      (s : State) (lines : List Bytes) (s' : State) (tasks : List Task)
      → SameAt k s
      → process_lines env s lines ≡ (s', some tasks)
      → SameAt k s'
  unfolding process_lines
  process_lines-SameAt s [] s' tasks h e = ground arith
  process_lines-SameAt s ([] ∷ more) s' tasks h e = process_lines-SameAt s more s' tasks h e
  process_lines-SameAt s ((c ∷ []) ∷ more) s' tasks h e = process_lines-SameAt s more s' tasks h e
  process_lines-SameAt s ((c ∷ d ∷ line) ∷ more) s' tasks h e =
      let args = split_on b'\t' (rstrip (lstrip (d ∷ line))) in
      resume-SameAt k s (λ r. process_lines env r more) (command env s c args) h
        (command-SameAfter k env s h c args) (λ r t ts g. process_lines-SameAt r more t ts g) s'
        tasks e

  commit_done-SameAt :
      (s : State) (transaction_id : Bytes) → SameAt k s → SameAt k (commit_done s transaction_id).0
  unfolding commit_done commit_end
  commit_done-SameAt s transaction_id h = ground (
    arith,
    has_key-del_item transaction_id k s.transactions,
    has_key-del_item transaction_id k s.transactions_user,
  )

-- while the connection is open
abbrev Holds : World → Type 0
Holds w = w.is_open ≡ true → SameKeys w.state

take_up-Holds :
    (env : Env) (w : World) (r : State × Option (List Task)) (data_ : Bytes)
    → r ≡ data_received env w.state data_
    → SameKeys w.state
    → Holds (take_up w r)
unfolding data_received
take_up-Holds env w (s, none) data_ e h o = absurd (ground arith)
take_up-Holds env w (s, some tasks) data_ e h o = record {
  same = λ k. process_lines-SameAt k env w.state (split_on b'\n' data_) s tasks (h.same k) (sym e);
}

Step-Holds : {env : Env} {w w' : World} → Step env w w' → Holds w → Holds w'
unfolding receive start_commit call_set finish_commit
Step-Holds {env} (received w data_ o) h =
    take_up-Holds env w (data_received env w.state data_) data_ refl (h o)
Step-Holds {env} (answered w before task behind e c) h = h
Step-Holds {env} (started w before transaction_id behind e) h = h
Step-Holds {env} (called w before transaction_id behind item e) h = h
Step-Holds {env} (failed w before transaction_id behind e) h = h
Step-Holds {env} (finished w before transaction_id behind e) h =
    λ o. record { same = λ k. commit_done-SameAt k env w.state transaction_id ((h o).same k) }

-- On an open connection the transactions and the users of transactions have the same ids at every
-- moment, however its packets, its tasks and the turns of its running commits come one after another.
pub Reach-SameKeys : {env : Env} {w : World} → Reach env w → w.is_open ≡ true → SameKeys w.state
unfolding connected new_connection
Reach-SameKeys begin o = record { same = λ k. refl }
Reach-SameKeys (next r step) o = Step-Holds step (Reach-SameKeys r) o
