-- ===== src/Podop/Dict/Handlers/Transactions.antt =====
-- What a transaction holds, and what its commit sends.
use mailu.Prelude.{
  ◌≤◌, ◌≡◌, refl, ap, ◌∙◌, inl, inr, Bool, true, Option, none, some, List, [], ◌∷◌, ◌++◌, arith,
  if◌then◌else◌, Option-cases, is_some, length, all, Bytes, codes, bytes_eq, bytes_eq_refl,
  bytes_eq→eq, Dict, get_item, set_item, has_key, get_item-set_item, has_key-set_item,
}
use mailu.Podop.Dict.{Table, Env, State, Event, stored, reply, user_of}
use mailu.Podop.Dict.Handlers.{
  set_call, commit_items, commit_end, process_commit, drop_transaction, Handled, done,
  process_begin, process_set,
}

-- the requests of one transaction, the newest first, behind its beginning
abbrev and_set : Bytes → Bytes × Bytes → Handled → Handled
and_set transaction_id (key, value) (done s) = process_set s transaction_id key value
and_set transaction_id item h = h

abbrev pub request : Env → State → Bytes → Option Bytes → Dict Bytes → Handled
request env s transaction_id user [] = process_begin env s transaction_id user
request env s transaction_id user (item ∷ older) =
    and_set transaction_id item (request env s transaction_id user older)

abbrev pub gathered : Dict Bytes → Dict Bytes
gathered [] = []
gathered ((key, value) ∷ older) = set_item key value (gathered older)

abbrev pub values : Bytes → Dict Bytes → List Bytes
values key [] = []
values key ((k, v) ∷ items) =
    let rest = values key items in if bytes_eq k key then v ∷ rest else rest

abbrev pub at_most : Option Bytes → List Bytes
at_most none = []
at_most (some v) = v ∷ []

length-zero : (xs : List Bytes) → length xs ≡ 0 → xs ≡ []
length-zero [] h = refl
length-zero (x ∷ xs) h = absurd (omega arith)

length-values :
    (key : Bytes) (k v : Bytes) (d : Dict Bytes)
    → bytes_eq k key ≡ true
    → length (values key ((k, v) ∷ d)) ≤ 1
    → values key d ≡ []
length-values key k v d e h = length-zero (values key d) (ground arith)

values-set_item :
    (key other v : Bytes) (d : Dict Bytes)
    → length (values key d) ≤ 1
    → values other (set_item key v d) ≡ (if bytes_eq key other then v ∷ [] else values other d)
values-set_item key other v [] h = refl
values-set_item key other v ((k, w) ∷ d) h = ground (
  arith,
  values-set_item key other v d,
  length-values key k w d,
  bytes_eq→eq k key,
  bytes_eq→eq k other,
  bytes_eq→eq key other,
)

-- Each key has its newest value, once.
values-gathered :
    (key : Bytes) (items : Dict Bytes) → values key (gathered items) ≡ at_most (get_item key items)
values-gathered key [] = refl
values-gathered key ((k, v) ∷ older) = ground (
  arith,
  values-set_item k key v (gathered older),
  values-gathered k older,
  values-gathered key older,
)

-- the calls of `set` that an item stands for, and the items whose call is made
abbrev pub call : Env → Option Bytes → Bytes × Bytes → List Event
call env user item = elim (set_call env user item) [
  | none ↦ []
  | some (name, json, ns) ↦ stored name json ns ∷ []
]

abbrev pub calls : Env → Option Bytes → Dict Bytes → List Event
calls env user [] = []
calls env user (item ∷ items) = call env user item ++ calls env user items

abbrev pub is_good : Env → Option Bytes → Bytes × Bytes → Bool
is_good env user item = is_some (set_call env user item)

commit_items-calls :
    (env : Env) (table : Table) (user : Option Bytes) (d : Dict Bytes)
    → ((name json : Bytes) (ns : Option Bytes) → table.set name json ns ≡ true)
    → all (is_good env user) d ≡ true
    → commit_items env (some table) user d ≡ (calls env user d, true)
unfolding commit_items
commit_items-calls env table user [] up h = refl
commit_items-calls env table user (item ∷ d) up h = elim (Option-cases (set_call env user item)) [
  | inl bad ↦ ground arith
  | inr ((name, json, ns), good) ↦
      ground (arith, commit_items-calls env table user d up, up name json ns)
]

all-set_item :
    (p : Bytes × Bytes → Bool) (key v : Bytes) (d : Dict Bytes)
    → p (key, v) ≡ true
    → all p d ≡ true
    → all p (set_item key v d) ≡ true
all-set_item p key v [] h g = ground arith
all-set_item p key v ((k, w) ∷ d) h g = ground (arith, all-set_item p key v d, bytes_eq→eq k key)

all-gathered :
    (p : Bytes × Bytes → Bool) (items : Dict Bytes)
    → all p items ≡ true
    → all p (gathered items) ≡ true
all-gathered p [] h = refl
all-gathered p ((k, v) ∷ older) h =
    all-set_item p k v (gathered older) (ground arith) (all-gathered p older (ground arith))

-- the state behind the requests of a transaction
record Held (s : State) (transaction_id u : Bytes) (items : Dict Bytes) (s' : State) : Type 0 where
  same_dict : s'.dict ≡ s.dict
  held : get_item transaction_id s'.transactions ≡ some (gathered items)
  owned : get_item transaction_id s'.transactions_user ≡ some u
  known : has_key transaction_id s'.transactions_user ≡ true

and_set-done :
    (transaction_id key value : Bytes) {h : Handled} {s : State} {d : Dict Bytes}
    → h ≡ done s
    → get_item transaction_id s.transactions ≡ some d
    → and_set transaction_id (key, value) h
      ≡ done (record s {
        transactions = set_item transaction_id (set_item key value d) s.transactions;
      })
unfolding process_set
and_set-done transaction_id key value e h = ground arith

process_commit-items :
    (env : Env) (s : State) (transaction_id : Bytes) {u : Bytes} {items : Dict Bytes}
    {events : List Event}
    → get_item transaction_id s.transactions ≡ some items
    → get_item transaction_id s.transactions_user ≡ some u
    → has_key transaction_id s.transactions_user ≡ true
    → commit_items env s.dict (some u) items ≡ (events, true)
    → process_commit env s transaction_id
      ≡ (drop_transaction transaction_id s, events ++ reply (codes "O") (transaction_id ∷ []) ∷ [])
unfolding process_commit commit_end
process_commit-items env s transaction_id h g k e = ground arith

request-Held :
    (env : Env) (s : State) (transaction_id : Bytes) (user : Option Bytes) (u : Bytes)
    (items : Dict Bytes)
    → user_of env s user ≡ some u
    → (s' : State) × (request env s transaction_id user items ≡ done s')
      × Held s transaction_id u items s'
unfolding process_begin process_set
request-Held env s transaction_id user u [] h = (
  record s {
    transactions = set_item transaction_id [] s.transactions;
    transactions_user = set_item transaction_id u s.transactions_user;
  },
  ground arith,
  record {
    same_dict = refl;
    held = get_item-set_item transaction_id [] s.transactions;
    owned = get_item-set_item transaction_id u s.transactions_user;
    known =
        has_key-set_item transaction_id transaction_id u s.transactions_user
        ∙ rw (bytes_eq_refl transaction_id) refl;
  },
)
request-Held env s transaction_id user u ((key, value) ∷ older) h =
    let (s', e, k) = request-Held env s transaction_id user u older h in
    (
      record s' {
        transactions =
            set_item transaction_id (set_item key value (gathered older)) s'.transactions;
      },
      and_set-done transaction_id key value e k.held,
      record {
        same_dict = k.same_dict;
        held = get_item-set_item transaction_id (gathered ((key, value) ∷ older)) s'.transactions;
        owned = k.owned;
        known = k.known;
      },
    )

-- what the commit of a transaction comes to
pub record Committed (env : Env) (transaction_id u : Bytes) (items : Dict Bytes) (s' : State)
    : Type 0 where
  pub outcome : process_commit env s' transaction_id ≡ (
    drop_transaction transaction_id s',
    calls env (some u) (gathered items) ++ reply (codes "O") (transaction_id ∷ []) ∷ [],
  )
  pub newest : (key : Bytes) → values key (gathered items) ≡ at_most (get_item key items)

-- Requests that begin a transaction, with any items, and commit it, with nothing between the awaits of
-- the commit, send every key once, with its newest value and for the user of the transaction, then
-- acknowledge it, as long as the table is up and the keys and values can be read.
pub process_commit-newest :
    (env : Env) (table : Table) (s : State) (transaction_id : Bytes) (user : Option Bytes)
    (u : Bytes) (items : Dict Bytes)
    → s.dict ≡ some table
    → ((name json : Bytes) (ns : Option Bytes) → table.set name json ns ≡ true)
    → user_of env s user ≡ some u
    → all (is_good env (some u)) items ≡ true
    → (s' : State) × (request env s transaction_id user items ≡ done s')
      × Committed env transaction_id u items s'
process_commit-newest env table s transaction_id user u items d up h good =
    let (s', e, k) = request-Held env s transaction_id user u items h in
    (
      s',
      e,
      record {
        outcome = process_commit-items env s' transaction_id k.held k.owned k.known (
            ap (λ t. commit_items env t (some u) (gathered items)) (k.same_dict ∙ d)
            ∙ commit_items-calls env table (some u) (gathered items) up
                (all-gathered (is_good env (some u)) items good));
        newest = λ key. values-gathered key items;
      },
    )
