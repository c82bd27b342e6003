-- ===== src/Session/Operations/Saved.antt =====
-- A saved session is what its cookie opens.
use mailu.Prelude.{
  ℕ, zero, suc, ◌+◌, ltb, ◌<◌, ◌≡◌, refl, ap, ◌∙◌, ◌⊎◌, inl, inr, Bool, true, false, not, none,
  some, arith, if◌then◌else◌, is_some, length, all, Bytes, get_item, get_item-set_item,
}
use mailu.Session.{
  Store, expiry, is_alive, pickled, get, put, Config, time_bytes, gen_uid, gen_sid, gen_created,
  Parts, is_current, parse_key,
}
use mailu.Session.Base64.RoundTrip.{is_byte}
use mailu.Session.Keys.{power, IsGenerated, key_of, parse_key-key_of}
use mailu.Session.Operations.{
  Session, user_key, open_session, new_session, sid, delete, or_empty, identified, put_token,
  is_stale, stored, save,
}

-- what the keyed hash and the random bits of the standard library give: bytes, as many as asked for
pub record IsHash (config : Config) : Type 0 where
  pub hash_length : (u : Bytes) → length (config.uid_hash u) ≡ config.uid_len
  pub hash_bytes : (u : Bytes) → all is_byte (config.uid_hash u) ≡ true

pub record IsRandom (config : Config) (random : Bytes) : Type 0 where
  pub random_length : length random ≡ config.sid_len
  pub random_bytes : all is_byte random ≡ true

-- The parts of a session are missing or were made by the server, at the time `created`.
pub record IsOwn (config : Config) (created : ℕ) (s : Session) : Type 0 where
  pub made : s.created ≡ some (gen_created created)
  pub fits : created < power time_bytes
  pub uid_own : (s.uid ≡ none) ⊎ ((u : Bytes) × (s.uid ≡ some (gen_uid config u)))
  pub sid_own :
      (s.sid_part ≡ none) ⊎ ((r : Bytes) × (s.sid_part ≡ some (gen_sid r)) × IsRandom config r)

-- all of them are there
pub record IsWhole (config : Config) (created : ℕ) (parts : Parts) (s : Session) : Type 0 where
  pub uid_is : s.uid ≡ some parts.uid
  pub sid_is : s.sid_part ≡ some parts.sid
  pub crt_is : s.created ≡ some parts.crt
  pub generated : IsGenerated config created parts

identified-uid :
    (config : Config) (random : Bytes) (s : Session)
    → (s.uid ≡ none) ⊎ ((u : Bytes) × (s.uid ≡ some (gen_uid config u)))
    → (u : Bytes) × ((identified config random s).uid ≡ some (gen_uid config u))
unfolding identified
identified-uid config random s (inl e) = (or_empty (get_item user_key s.items), ground arith)
identified-uid config random s (inr (u, e)) = (u, ground arith)

identified-sid :
    (config : Config) (random : Bytes) (s : Session)
    → IsRandom config random
    → (s.sid_part ≡ none) ⊎ ((r : Bytes) × (s.sid_part ≡ some (gen_sid r)) × IsRandom config r)
    → (r : Bytes) × ((identified config random s).sid_part ≡ some (gen_sid r)) × IsRandom config r
unfolding identified
identified-sid config random s h (inl e) = (random, ground arith, h)
identified-sid config random s h (inr (r, e, k)) = (r, ground arith, k)

pub identified-IsWhole :
    (config : Config) (created : ℕ) (random : Bytes) (s : Session)
    → IsHash config
    → IsRandom config random
    → IsOwn config created s
    → (parts : Parts) × IsWhole config created parts (identified config random s)
unfolding identified
identified-IsWhole config created random s hash h o =
    let (u, uid_is) = identified-uid config random s o.uid_own in
    let (r, sid_is, k) = identified-sid config random s h o.sid_own in
    (
      record { uid = gen_uid config u; sid = gen_sid r; crt = gen_created created },
      record {
        uid_is = uid_is;
        sid_is = sid_is;
        crt_is = o.made;
        generated = record {
          user = u;
          random = r;
          uid_of = refl;
          sid_of = refl;
          crt_of = refl;
          uid_length = hash.hash_length u;
          uid_bytes = hash.hash_bytes u;
          sid_length = k.random_length;
          sid_bytes = k.random_bytes;
          fits = o.fits;
        };
      },
    )

pub sid-IsWhole :
    (config : Config) (created : ℕ) (parts : Parts) (s : Session)
    → IsWhole config created parts s
    → sid s ≡ some (key_of parts)
unfolding sid
sid-IsWhole config created parts s w = ground (arith, w.uid_is, w.sid_is, w.crt_is)

-- the state that `stored` is applied to
abbrev before_put : Config → ℕ → Bytes → Session → Store → Bytes → Session × Store
before_put config now random s store key =
    let s' = identified config random s in
    let store' = put_token config now (not (is_some s.sid_part)) key s.items store in
    if is_stale key s.key then delete true (s', store') else (s', store')

save-some :
    (config : Config) (now : ℕ) (random : Bytes) (s : Session) (store : Store) (key : Bytes)
    → sid (identified config random s) ≡ some key
    → save config now random (s, store)
      ≡ some (
        stored config now key (before_put config now random s store key),
        not (is_some s.sid_part),
      )
unfolding save
save-some config now random s store key e = ground arith

-- deleting changes neither the parts nor the items
pub record SameParts (s t : Session) : Type 0 where
  pub same_uid : t.uid ≡ s.uid
  pub same_sid : t.sid_part ≡ s.sid_part
  pub same_created : t.created ≡ s.created
  pub same_items : t.items ≡ s.items

delete-SameParts : (b : Bool) (s : Session) (store : Store) → SameParts s (delete b (s, store)).0
unfolding delete
delete-SameParts b s store = record {
  same_uid = ground arith;
  same_sid = ground arith;
  same_created = ground arith;
  same_items = ground arith;
}

SameParts-if :
    (b : Bool) (s : Session) (x y : Session × Store)
    → SameParts s x.0
    → SameParts s y.0
    → SameParts s (if b then x else y).0
SameParts-if true s x y h k = h
SameParts-if false s x y h k = k

pub before_put-SameParts :
    (config : Config) (now : ℕ) (random : Bytes) (s : Session) (store : Store) (key : Bytes)
    → SameParts (identified config random s) (before_put config now random s store key).0
before_put-SameParts config now random s store key =
    let s' = identified config random s in
    let store' = put_token config now (not (is_some s.sid_part)) key s.items store in
    SameParts-if (is_stale key s.key) s' (delete true (s', store')) (s', store')
      (delete-SameParts true s' store')
      (record { same_uid = refl; same_sid = refl; same_created = refl; same_items = refl })

expiry-pos : (ttl now : ℕ) → 0 < ttl → expiry ttl now ≡ some (now + ttl)
expiry-pos zero now h = absurd (omega arith)
expiry-pos (suc n) now h = refl

-- what a session that was stored at `now` opens as at a later time, for a timeout that is not 0
open-stored :
    (config : Config) (now later : ℕ) (key : Bytes) (parts : Parts) (x : Session × Store)
    → 0 < config.timeout
    → parse_key config later key ≡ some parts
    → x.0.uid ≡ some parts.uid
    → x.0.sid_part ≡ some parts.sid
    → x.0.created ≡ some parts.crt
    → open_session config later (stored config now key x).1 (some key) ≡ (
        if ltb later (now + config.timeout) then (stored config now key x).0 else new_session later)
unfolding open_session get put is_alive
open-stored config now later key parts (s, store) t e u a c = ground (
  arith,
  get_item-set_item key (record { value = pickled s.items; expires_at = expiry config.timeout now })
      store,
  expiry-pos config.timeout now t,
)

-- the result of a save, and what its cookie opens at a later time
pub record SavedAs (config : Config) (now later : ℕ) (random : Bytes) (s : Session) (store : Store)
    (s' : Session) (store' : Store) : Type 0 where
  pub outcome : save config now random (s, store) ≡ some ((s', store'), not (is_some s.sid_part))
  pub kept : s'.items ≡ s.items
  pub opened :
      open_session config later store' (sid s')
      ≡ (if ltb later (now + config.timeout) then s' else new_session later)

sid-stored :
    (config : Config) (now : ℕ) (key : Bytes) (x : Session × Store)
    → sid (stored config now key x).0 ≡ sid x.0
unfolding sid
sid-stored config now key x = refl

-- Saving a session, new or not, succeeds and keeps its items. At a later time within the lifetime of its
-- id, its cookie opens the session that was saved, if fewer seconds than the timeout, which is not 0,
-- have passed since, and a new session otherwise.
pub save-open_session :
    (config : Config) (created now later : ℕ) (random : Bytes) (s : Session) (store : Store)
    → IsHash config
    → IsRandom config random
    → IsOwn config created s
    → 0 < config.timeout
    → is_current config later created ≡ true
    → (s' : Session) × (store' : Store) × SavedAs config now later random s store s' store'
unfolding identified
save-open_session config created now later random s store hash h o t c =
    let (parts, w) = identified-IsWhole config created random s hash h o in
    let key = key_of parts in
    let x = before_put config now random s store key in
    let same = before_put-SameParts config now random s store key in
    let e = sid-IsWhole config created parts (identified config random s) w in
    let uid_is = same.same_uid ∙ w.uid_is in
    let sid_is = same.same_sid ∙ w.sid_is in
    let crt_is = same.same_created ∙ w.crt_is in
    let whole : IsWhole config created parts x.0 = record {
      uid_is = uid_is;
      sid_is = sid_is;
      crt_is = crt_is;
      generated = w.generated;
    } in
    (
      (stored config now key x).0,
      (stored config now key x).1,
      record {
        outcome = save-some config now random s store key e;
        kept = same.same_items;
        opened =
            ap (open_session config later (stored config now key x).1)
              (sid-stored config now key x ∙ sid-IsWhole config created parts x.0 whole)
            ∙ open-stored config now later key parts x t
                (parse_key-key_of config later created parts w.generated c) uid_is sid_is crt_is;
      },
    )
