-- ===== src/Session/Operations/Ended.antt =====
-- What is left of a session that got a new id, was destroyed or was pruned.
use mailu.Prelude.{
  ℕ, ◌+◌, ◌<◌, ltb, if◌then◌else◌, ◌≡◌, refl, sym, ap, ◌∙◌, subst, inl, inr, Bool, true, false, not,
  none, some, arith, Bool-cases, Option-cases, is_some, Bytes, bytes_eq, bytes_eq→eq, Dict,
  get_item, del_item, get_item-set_item_ne, get_item-del_item, get_item-del_item_ne,
}
use mailu.Session.{Store, expiry, pickled, plain, get, put, delete_key, Config, is_current}
use mailu.Session.Operations.{
  Session, token_key, new_session, open_session, sid, delete, destroy, regenerate, or_empty,
  identified, put_token, stored, save, verify_temp_token,
}
use mailu.Session.Operations.Saved.{IsHash, IsRandom, IsOwn, save-open_session}

put_token-absent :
    (config : Config) (now : ℕ) (b : Bool) (key old : Bytes) (items : Dict Bytes) (store : Store)
    → get_item old store ≡ none
    → bytes_eq (or_empty (get_item token_key items)) old ≡ false
    → get_item old (put_token config now b key items store) ≡ none
unfolding put
put_token-absent config now false key old items store h t = h
put_token-absent config now true key old items store h t =
    elim (Option-cases (get_item token_key items)) [
      | inl no_token ↦ ground arith
      | inr (token, e) ↦ ground (
        arith,
        get_item-set_item_ne token old
            (record { value = plain key; expires_at = expiry config.lifetime now }) store,
      )
    ]

stored-absent :
    (config : Config) (now : ℕ) (key old : Bytes) (s : Session) (store : Store)
    → get_item old store ≡ none
    → bytes_eq key old ≡ false
    → get_item old (stored config now key (s, store)).1 ≡ none
unfolding put
stored-absent config now key old s store h k =
    get_item-set_item_ne key old
      (record { value = pickled s.items; expires_at = expiry config.timeout now }) store k
    ∙ h

saved_store :
    (config : Config) (now : ℕ) (random : Bytes) (s : Session) (store : Store) (key : Bytes)
    (s' : Session) (store' : Store) (b : Bool)
    → s.key ≡ none
    → sid (identified config random s) ≡ some key
    → save config now random (s, store) ≡ some ((s', store'), b)
    → store'
      ≡ put now key
          (pickled s.items)
          config.timeout
          (put_token config now (not (is_some s.sid_part)) key s.items store)
unfolding save delete identified
saved_store config now random s store key s' store' b k n e = ground arith

-- a session without a key of its own, saved beside a key that the store does not have
save-absent :
    (config : Config) (now : ℕ) (random old : Bytes) (s : Session) (store : Store) (s' : Session)
    (store' : Store) (b : Bool)
    → s.key ≡ none
    → get_item old store ≡ none
    → bytes_eq (or_empty (get_item token_key s.items)) old ≡ false
    → bytes_eq (or_empty (sid (identified config random s))) old ≡ false
    → save config now random (s, store) ≡ some ((s', store'), b)
    → get_item old store' ≡ none
save-absent config now random old s store s' store' b k h t n e =
    elim (Option-cases (sid (identified config random s))) [
      | inl bad ↦ absurd (unfold save in ground arith)
      | inr (key, good) ↦
          subst (λ r. get_item old r ≡ none)
            (sym (saved_store config now random s store key s' store' b k good e))
            (stored-absent config now key old s
              (put_token config now (not (is_some s.sid_part)) key s.items store)
              (put_token-absent config now (not (is_some s.sid_part)) key old s.items store h t)
              (unfold identified in ground arith))
    ]

open-absent :
    (config : Config) (now : ℕ) (store : Store) (key : Bytes)
    → get_item key store ≡ none
    → open_session config now store (some key) ≡ new_session now
unfolding open_session get
open-absent config now store key h = ground arith

abbrev pub renewed : Session → Session
renewed s = record s { sid_part = none; key = none; modified = true }

regenerate-saved :
    (s : Session) (store : Store) (old : Bytes)
    → s.key ≡ some old
    → regenerate (s, store) ≡ (renewed s, del_item old store)
unfolding regenerate delete delete_key
regenerate-saved s store old k = ground arith

-- a session that was given a new id, and saved
pub record Regenerated (config : Config) (now soon : ℕ) (random old : Bytes) (s : Session)
    (store : Store) (s' : Session) (store' : Store) : Type 0 where
  pub outcome : save config now random (regenerate (s, store)) ≡ some ((s', store'), true)
  pub kept : s'.items ≡ s.items
  pub opened :
      open_session config soon store' (sid s')
      ≡ (if ltb soon (now + config.timeout) then s' else new_session soon)
  pub closed : (later : ℕ) → open_session config later store' (some old) ≡ new_session later

-- A saved session that is regenerated and saved keeps its items. Its new cookie opens it until the
-- timeout, which is not 0, has passed, within the lifetime of its id, and its old cookie opens an empty
-- session from then on, if the new id and the token of the webmail differ from the old id.
pub regenerate-Regenerated :
    (config : Config) (created now soon : ℕ) (random old : Bytes) (s : Session) (store : Store)
    → IsHash config
    → IsRandom config random
    → IsOwn config created s
    → 0 < config.timeout
    → is_current config soon created ≡ true
    → s.key ≡ some old
    → bytes_eq (or_empty (get_item token_key s.items)) old ≡ false
    → bytes_eq (or_empty (sid (identified config random (renewed s)))) old ≡ false
    → (s' : Session) × (store' : Store) × Regenerated config now soon random old s store s' store'
regenerate-Regenerated config created now soon random old s store hash h o up c k t n =
    let own : IsOwn config created (renewed s) = record {
      made = o.made;
      fits = o.fits;
      uid_own = o.uid_own;
      sid_own = inl refl;
    } in
    let (s', store', saved) =
      save-open_session config created now soon random (renewed s) (del_item old store) hash h own
        up c in
    (
      s',
      store',
      record {
        outcome = ap (save config now random) (regenerate-saved s store old k) ∙ saved.outcome;
        kept = saved.kept;
        opened = saved.opened;
        closed = λ later. open-absent config later store' old (
            save-absent config now random old (renewed s) (del_item old store) s' store' true refl
              (get_item-del_item old store) t n saved.outcome);
      },
    )

destroy-saved :
    (s : Session) (store : Store) (old token : Bytes)
    → s.key ≡ some old
    → get_item token_key s.items ≡ some token
    → (destroy (s, store)).1 ≡ del_item old (del_item token store)
unfolding destroy delete delete_key
destroy-saved s store old token k t = ground arith

absent-del_item {ℓ} :
    {V : Type ℓ} (key other : Bytes) (d : Dict V)
    → get_item other d ≡ none
    → get_item other (del_item key d) ≡ none
absent-del_item key other d h = elim (Bool-cases (bytes_eq key other)) [
  | inl same ↦
      subst (λ k. get_item k (del_item key d) ≡ none) (bytes_eq→eq key other same)
        (get_item-del_item key d)
  | inr ne ↦ get_item-del_item_ne key other d ne ∙ h
]

-- A session that is destroyed is gone, and with it the token of its webmail: the cookie opens an empty
-- session, and the token signs nobody in.
pub destroy-Ended :
    (config : Config) (now : ℕ) (s : Session) (store : Store) (old token email : Bytes)
    → s.key ≡ some old
    → get_item token_key s.items ≡ some token
    → (open_session config now (destroy (s, store)).1 (some old) ≡ new_session now)
      × (verify_temp_token config now (destroy (s, store)).1 email token ≡ false)
unfolding verify_temp_token get
destroy-Ended config now s store old token email k t = (
  open-absent config now (destroy (s, store)).1 old (
      ap (get_item old) (destroy-saved s store old token k t)
      ∙ get_item-del_item old (del_item token store)),
  ground (
    arith,
    destroy-saved s store old token k t,
    absent-del_item old token (del_item token store) (get_item-del_item token store),
  ),
)
