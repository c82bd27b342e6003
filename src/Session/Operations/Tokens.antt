-- ===== src/Session/Operations/Tokens.antt =====
-- Whom a token of the webmail signs in.
use mailu.Prelude.{
  ℕ, zero, suc, ltb, refl, ◌≡◌, ap, inl, inr, true, false, Option, none, some, [], ◌∷◌, arith,
  Option-cases, Bytes, codes, bytes_eq, bytes_eq_refl, bytes_eq→eq, Dict, get_item,
  get_item-set_item, get_item-set_item_ne,
}
use mailu.Session.{
  Store, expiry, is_alive, pickled, plain, get, put, starts_with, Config, Parts, parse_key,
}
use mailu.Session.Operations.{
  Session, user_key, new_session, open_session, sid, or_empty, gen_temp_token, verify_temp_token,
}

-- the session behind a token
pub record Live (config : Config) (now : ℕ) (store : Store) (email token key : Bytes)
    (parts : Parts) (items : Dict Bytes) : Type 0 where
  pub named : get now token store ≡ some (plain key)
  pub current : parse_key config now key ≡ some parts
  pub found : get now key store ≡ some (pickled items)
  pub of_user : get_item user_key items ≡ some email

or_empty-some :
    (o : Option Bytes) (c : ℕ) (cs : Bytes)
    → bytes_eq (or_empty o) (c ∷ cs) ≡ true
    → o ≡ some (c ∷ cs)
unfolding bytes_eq
or_empty-some none c cs h = absurd (ground arith)
or_empty-some (some t) c cs h = ap (λ x. some x) (bytes_eq→eq t (c ∷ cs) h)

-- a session with items was found
open_session-found :
    (config : Config) (now : ℕ) (store : Store) (key email : Bytes)
    → get_item user_key (open_session config now store (some key)).items ≡ some email
    → (parts : Parts) × (items : Dict Bytes) × (parse_key config now key ≡ some parts)
      × (get now key store ≡ some (pickled items))
      × (get_item user_key items ≡ some email)
unfolding open_session new_session
open_session-found config now store key email h = elim (Option-cases (parse_key config now key)) [
  | inl unread ↦ absurd (ground arith)
  | inr (parts, read) ↦ elim (Option-cases (get now key store)) [
    | inl absent ↦ absurd (ground arith)
    | inr (pickled items, held) ↦ (parts, items, read, held, ground arith)
    | inr (plain text, held) ↦ absurd (ground arith)
  ]
]

-- A token that signs a user in names a session that lives, is in the store and belongs to this user.
pub verify_temp_token-Live :
    (config : Config) (now : ℕ) (store : Store) (c : ℕ) (cs token : Bytes)
    → verify_temp_token config now store (c ∷ cs) token ≡ true
    → (key : Bytes) × (parts : Parts) × (items : Dict Bytes) × Live config now store
        (c ∷ cs)
        token
        key
        parts
        items
unfolding verify_temp_token
verify_temp_token-Live config now store c cs token h = elim (Option-cases (get now token store)) [
  | inl absent ↦ absurd (ground arith)
  | inr (pickled items, held) ↦ absurd (ground arith)
  | inr (plain [], held) ↦ absurd (ground arith)
  | inr (plain (k ∷ key), held) ↦
      let (parts, items, read, found, user) =
        open_session-found config now store (k ∷ key) (c ∷ cs) (
          or_empty-some (get_item user_key (open_session config now store (some (k ∷ key))).items) c
            cs (ground arith)) in
      (
        k ∷ key,
        parts,
        items,
        record { named = held; current = read; found = found; of_user = user },
      )
]

alive_now : (ttl now : ℕ) → elim (expiry ttl now) [ none ↦ true | some t ↦ ltb now t ] ≡ true
alive_now zero now = refl
alive_now (suc n) now = ground arith

open_session-items :
    (config : Config) (now : ℕ) (store : Store) (key : Bytes) {parts : Parts} {items : Dict Bytes}
    → parse_key config now key ≡ some parts
    → get now key store ≡ some (pickled items)
    → (open_session config now store (some key)).items ≡ items
unfolding open_session get
open_session-items config now store key e h = ground arith

-- The token of a session that is in the store signs its user in: a token that `gen_temp_token` makes
-- or finds is accepted while the session lives, if it has the prefix and is not the id of the session.
pub verify_temp_token-gen_temp_token :
    (config : Config) (now c : ℕ) (cs fresh token email : Bytes) (s s' : Session)
    (store store' : Store) (parts : Parts) (items : Dict Bytes)
    → sid s ≡ some (c ∷ cs)
    → parse_key config now (c ∷ cs) ≡ some parts
    → get now (c ∷ cs) store ≡ some (pickled items)
    → get_item user_key items ≡ some email
    → gen_temp_token config now fresh (s, store) ≡ some (token, s', store')
    → starts_with (codes "token-") token ≡ true
    → bytes_eq token (c ∷ cs) ≡ false
    → verify_temp_token config now store' email token ≡ true
unfolding verify_temp_token gen_temp_token get put is_alive
verify_temp_token-gen_temp_token config now c cs fresh token email s s' store store' parts items own
      read held user made prefixed differs =
    ground (
      arith,
      get_item-set_item token
          (record { value = plain (c ∷ cs); expires_at = expiry config.lifetime now }) store,
      get_item-set_item_ne token (c ∷ cs)
          (record { value = plain (c ∷ cs); expires_at = expiry config.lifetime now }) store,
      open_session-items config now store' (c ∷ cs) {parts = parts} {items = items},
      bytes_eq_refl email,
      alive_now config.lifetime now,
    )
