-- ===== src/Session/Operations/Prune.antt =====
-- Which keys the removal of sessions takes out of the store.
use mailu.Prelude.{
  ℕ, ◌≡◌, refl, inl, inr, Bool, true, false, ◌&&◌, Option, none, some, List, [], ◌∷◌, arith,
  if◌then◌else◌, Bool-cases, Option-cases, is_some, filter, Bytes, codes, bytes_eq, bytes_eq→eq,
  bytes_eq_refl, member, get_item, del_item, get_item-del_item, get_item-del_item_ne,
}
use mailu.Session.{
  Value, Store, pickled, plain, get, delete_key, starts_with, keys, is_alive, list_keys, Config,
  gen_uid, parse_key,
}
use mailu.Session.Operations.{
  prunes, delete_keys, prune_sessions, cleanup_key, cleanup_keys, cleanup_sessions,
}

get_item-delete_keys :
    (key : Bytes) (ks : List Bytes) (store : Store)
    → get_item key (delete_keys ks store) ≡ (if member key ks then none else get_item key store)
unfolding member
get_item-delete_keys key [] store = refl
get_item-delete_keys key (k ∷ ks) store = ground (
  arith,
  get_item-delete_keys key ks (del_item k store),
  get_item-del_item_ne k key store,
  get_item-del_item k store,
  bytes_eq→eq k key,
)

member-filter :
    (key : Bytes) (p : Bytes → Bool) (ks : List Bytes)
    → member key (filter p ks) ≡ (p key && member key ks)
unfolding member
member-filter key p [] = ground arith
member-filter key p (k ∷ ks) = ground (arith, member-filter key p ks, bytes_eq→eq k key)

-- a key that is not listed has no value
get-keys :
    (now : ℕ) (key : Bytes) (store : Store)
    → member key (keys now store) ≡ false
    → get now key store ≡ none
unfolding member keys get is_alive
get-keys now key [] h = refl
get-keys now key ((k, entry) ∷ store) h =
    ground (arith, get-keys now key store, bytes_eq→eq k key, bytes_eq_refl key)

-- `prune_sessions` for a user takes out the sessions of the user, and no other key: neither those to
-- keep, nor tokens, nor other users' sessions.
pub prune_sessions-get :
    (config : Config) (now : ℕ) (user : Bytes) (keep : List Bytes) (store : Store) (key : Bytes)
    → get now key (prune_sessions config now (some user) keep store).0 ≡ (
        if starts_with (gen_uid config user) key && prunes keep key
        then none
        else get now key store)
unfolding prune_sessions list_keys get is_alive
prune_sessions-get config now user keep store key = ground (
  arith,
  get_item-delete_keys key
      (filter (prunes keep) (filter (starts_with (gen_uid config user)) (keys now store))) store,
  member-filter key (prunes keep) (filter (starts_with (gen_uid config user)) (keys now store)),
  member-filter key (starts_with (gen_uid config user)) (keys now store),
  get-keys now key store,
)

module _ (config : Config) (now : ℕ) (key : Bytes) (h : is_some (parse_key config now key) ≡ true)
    (t : starts_with (codes "token-") key ≡ false) where
  invalid-ne : (k : Bytes) → is_some (parse_key config now k) ≡ false → bytes_eq k key ≡ false
  invalid-ne k e = ground (arith, bytes_eq→eq k key)

  token-ne : (k : Bytes) → starts_with (codes "token-") k ≡ true → bytes_eq k key ≡ false
  token-ne k e = ground (arith, bytes_eq→eq k key)

  cleanup_token-live :
      (k : Bytes) (store store' : Store) (n : ℕ) (v : Option Value)
      → get now k store ≡ v
      → starts_with (codes "token-") k ≡ true
      → cleanup_key config now k store ≡ some (store', n)
      → get_item key store' ≡ get_item key store
  unfolding cleanup_key get delete_key
  cleanup_token-live k store store' n none g p e = absurd (ground arith)
  cleanup_token-live k store store' n (some (pickled items)) g p e =
      ground (arith, get_item-del_item_ne k key store, token-ne k)
  cleanup_token-live k store store' n (some (plain [])) g p e =
      ground (arith, get_item-del_item_ne k key store, token-ne k)
  cleanup_token-live k store store' n (some (plain (c ∷ cs))) g p e = ground (
    arith,
    get_item-del_item_ne k key (del_item (c ∷ cs) store),
    get_item-del_item_ne (c ∷ cs) key store,
    token-ne k,
    invalid-ne (c ∷ cs),
  )

  cleanup_key-live :
      (k : Bytes) (store store' : Store) (n : ℕ)
      → cleanup_key config now k store ≡ some (store', n)
      → get_item key store' ≡ get_item key store
  unfolding cleanup_key delete_key
  cleanup_key-live k store store' n e = elim (Bool-cases (starts_with (codes "token-") k)) [
    | inl p ↦ cleanup_token-live k store store' n (get now k store) refl p e
    | inr p ↦ ground (arith, get_item-del_item_ne k key store, invalid-ne k)
  ]

  cleanup_keys-live :
      (ks : List Bytes) (store store' : Store) (n : ℕ)
      → cleanup_keys config now ks store ≡ some (store', n)
      → get_item key store' ≡ get_item key store
  unfolding cleanup_keys
  cleanup_keys-live [] store store' n e = ground arith
  cleanup_keys-live (k ∷ ks) store store' n e =
      elim (Option-cases (cleanup_key config now k store)) [
        | inl bad ↦ absurd (ground arith)
        | inr ((s1, m), good) ↦ elim (Option-cases (cleanup_keys config now ks s1)) [
          | inl bad ↦ absurd (ground arith)
          | inr ((s2, l), more) ↦
              ground (arith, cleanup_key-live k store s1 m good, cleanup_keys-live ks s1 s2 l more)
        ]
      ]

  -- `cleanup_sessions` leaves every session that still lives as it was.
  pub cleanup_sessions-live :
      (store store' : Store) (n : ℕ)
      → cleanup_sessions config now store ≡ some (store', n)
      → get_item key store' ≡ get_item key store
  unfolding cleanup_sessions list_keys
  cleanup_sessions-live store store' n e = cleanup_keys-live (keys now store) store store' n e
