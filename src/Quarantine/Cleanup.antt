-- ===== src/Quarantine/Cleanup.antt =====
-- What `cleanup_expired` leaves.
use mailu.Prelude.{
  ℕ, ◌≡◌, refl, sym, ap, ◌∙◌, subst, inl, inr, Bool, true, false, not, ◌&&◌, ◌||◌, Option, none,
  some, List, [], ◌∷◌, arith, if◌then◌else◌, Bool-cases, is_some, Bytes, bytes_eq, bytes_eq→eq,
  member, Dict, get_item, del_item, has_key, get_item-del_item, get_item-del_item_ne,
}
use mailu.Quarantine.{
  Root, Clock, unlinked, is_live, cleanup_stem, stems, cleanup_stems, drop_orphan, drop_orphans,
  cleanup_expired,
}

has_key-is_some {ℓ} :
    {V : Type ℓ} (key : Bytes) (d : Dict V) → has_key key d ≡ is_some (get_item key d)
has_key-is_some key [] = refl
has_key-is_some key ((k, v) ∷ d) = ground (arith, has_key-is_some key d)

member-stems {ℓ} : {V : Type ℓ} (key : Bytes) (d : Dict V) → member key (stems d) ≡ has_key key d
unfolding member
member-stems key [] = refl
member-stems key ((k, v) ∷ d) = ground (arith, member-stems key d)

-- an item that is dropped under a condition
abbrev pub unless {ℓ} : {V : Type ℓ} → Bool → Option V → Option V
unless true o = none
unless false o = o

unless-del_item {ℓ} :
    {V : Type ℓ} (k key : Bytes) (d : Dict V)
    → get_item key (del_item k d) ≡ unless (bytes_eq k key) (get_item key d)
unless-del_item k key d = elim (Bool-cases (bytes_eq k key)) [
  | inl same ↦ ground (arith, bytes_eq→eq k key, get_item-del_item k d)
  | inr ne ↦ ground (arith, get_item-del_item_ne k key d)
]

-- two turns: `same` says that the first is about this key, `more` that a later one is
unless-chain {ℓ} :
    {V : Type ℓ} (same more live live' : Bool) (o o' o'' : Option V)
    → o' ≡ unless (same && not live) o
    → o'' ≡ unless (more && not live') o'
    → live' ≡ (not (same && not live) && live)
    → o'' ≡ unless ((same || more) && not live) o
unless-chain same more live live' o o' o'' h g e = ground arith

module _ (clock : Clock) (quarantine_days greylist_days : ℕ) where
  -- whether there is metadata that `cleanup_expired` keeps
  abbrev pub live_at : Root → Bytes → Bool
  live_at root key = elim (get_item key root.metadata_files) [
    | none ↦ false
    | some file ↦ is_live clock quarantine_days greylist_days file
  ]

  cleanup_stem-root :
      (stem : Bytes) (root : Root) (n : ℕ)
      → (cleanup_stem clock quarantine_days greylist_days stem (root, n)).0
        ≡ (if live_at root stem then root else unlinked stem root)
  unfolding cleanup_stem
  cleanup_stem-root stem root n = ground arith

  live_at-unlinked :
      (stem key : Bytes) (root : Root)
      → live_at (unlinked stem root) key ≡ (not (bytes_eq stem key) && live_at root key)
  live_at-unlinked stem key root = ground (arith, unless-del_item stem key root.metadata_files)

  -- whether the loop over `ks` takes a record away
  abbrev taken : List Bytes → Root → Bytes → Bool
  taken ks root key = member key ks && not (live_at root key)

  -- a directory in which the record of a key is taken away, or left
  record Left (b : Bool) (key : Bytes) (root root' : Root) : Type 0 where
    metadata : get_item key root'.metadata_files ≡ unless b (get_item key root.metadata_files)
    message : get_item key root'.message_files ≡ unless b (get_item key root.message_files)

  live_at-same :
      (stem key : Bytes) (root : Root)
      → bytes_eq stem key ≡ true
      → live_at root stem ≡ live_at root key
  live_at-same stem key root e = ap (live_at root) (bytes_eq→eq stem key e)

  choice-Left :
      (stem key : Bytes) (root : Root) (b : Bool)
      → live_at root stem ≡ b
      → Left
          (bytes_eq stem key && not (live_at root key))
          key
          root
          (if b then root else unlinked stem root)
  choice-Left stem key root true e = record {
    metadata = ground (arith, live_at-same stem key root);
    message = ground (arith, live_at-same stem key root);
  }
  choice-Left stem key root false e = record {
    metadata =
        ground (arith, live_at-same stem key root, unless-del_item stem key root.metadata_files);
    message =
        ground (arith, live_at-same stem key root, unless-del_item stem key root.message_files);
  }

  step-Left :
      (stem key : Bytes) (root : Root) (n : ℕ)
      → Left
          (bytes_eq stem key && not (live_at root key))
          key
          root
          (cleanup_stem clock quarantine_days greylist_days stem (root, n)).0
  step-Left stem key root n =
      subst (Left (bytes_eq stem key && not (live_at root key)) key root)
        (sym (cleanup_stem-root stem root n)) (choice-Left stem key root (live_at root stem) refl)

  live_at-unless :
      (b : Bool) (key : Bytes) (root root' : Root)
      → get_item key root'.metadata_files ≡ unless b (get_item key root.metadata_files)
      → live_at root' key ≡ (not b && live_at root key)
  live_at-unless b key root root' e = ground arith

  cleanup_stems-Left :
      (ks : List Bytes) (key : Bytes) (root : Root) (n : ℕ)
      → Left
          (taken ks root key)
          key
          root
          (cleanup_stems clock quarantine_days greylist_days ks (root, n)).0
  unfolding cleanup_stems member
  cleanup_stems-Left [] key root n = record { metadata = refl; message = refl }
  cleanup_stems-Left (stem ∷ more) key root n =
      let st = cleanup_stem clock quarantine_days greylist_days stem (root, n) in
      let first_step = step-Left stem key root n in
      let rest = cleanup_stems-Left more key st.0 st.1 in
      let live =
        live_at-unless (bytes_eq stem key && not (live_at root key)) key root st.0
          first_step.metadata in
      record {
        metadata =
            unless-chain (bytes_eq stem key) (member key more) (live_at root key) (live_at st.0 key)
              _ _ _ first_step.metadata rest.metadata live;
        message =
            unless-chain (bytes_eq stem key) (member key more) (live_at root key) (live_at st.0 key)
              _ _ _ first_step.message rest.message live;
      }

-- the loop over the messages leaves the metadata, and of the messages those with metadata
record Adopted (ks : List Bytes) (key : Bytes) (root root' : Root) : Type 0 where
  same_metadata : root'.metadata_files ≡ root.metadata_files
  message_left :
      get_item key root'.message_files
      ≡ unless
          (member key ks && not (has_key key root.metadata_files))
          (get_item key root.message_files)

has_key-same :
    (k key : Bytes) (root : Root)
    → bytes_eq k key ≡ true
    → has_key k root.metadata_files ≡ has_key key root.metadata_files
has_key-same k key root e = ap (λ j. has_key j root.metadata_files) (bytes_eq→eq k key e)

drop_orphan-metadata :
    (stem : Bytes) (root : Root) (n : ℕ)
    → (drop_orphan stem (root, n)).0.metadata_files ≡ root.metadata_files
unfolding drop_orphan
drop_orphan-metadata stem root n = ground arith

drop_orphan-message :
    (stem key : Bytes) (root : Root) (n : ℕ)
    → get_item key (drop_orphan stem (root, n)).0.message_files
      ≡ unless
          (bytes_eq stem key && not (has_key key root.metadata_files))
          (get_item key root.message_files)
unfolding drop_orphan
drop_orphan-message stem key root n =
    ground (arith, has_key-same stem key root, unless-del_item stem key root.message_files)

drop_orphans-Adopted :
    (ks : List Bytes) (key : Bytes) (root : Root) (n : ℕ)
    → Adopted ks key root (drop_orphans ks (root, n)).0
unfolding drop_orphans member
drop_orphans-Adopted [] key root n = record { same_metadata = refl; message_left = refl }
drop_orphans-Adopted (stem ∷ more) key root n =
    let st = drop_orphan stem (root, n) in
    let rest = drop_orphans-Adopted more key st.0 st.1 in
    let same = drop_orphan-metadata stem root n in
    let kept : has_key key st.0.metadata_files ≡ has_key key root.metadata_files =
      ap (has_key key) same in
    record {
      same_metadata = rest.same_metadata ∙ same;
      message_left =
          unless-chain (bytes_eq stem key) (member key more) (has_key key root.metadata_files)
            (has_key key st.0.metadata_files) _ _ _ (drop_orphan-message stem key root n)
            rest.message_left (ground arith);
    }

left-metadata {ℓ} :
    {V : Type ℓ} (member_of live : Bool) (o o' : Option V)
    → member_of ≡ is_some o
    → (live ≡ true → is_some o ≡ true)
    → o' ≡ unless (member_of && not live) o
    → o' ≡ (if live then o else none)
left-metadata member_of true o o' m i h = ground arith
left-metadata member_of false o o' m i h = ground arith

left-message {ℓ} :
    {V : Type ℓ} (member_of adopted listed live : Bool) (o o' o'' : Option V)
    → o' ≡ unless (member_of && not live) o
    → adopted ≡ live
    → listed ≡ is_some o'
    → o'' ≡ unless (listed && not adopted) o'
    → o'' ≡ (if live then o else none)
left-message member_of adopted listed true o o' o'' h a i g = ground arith
left-message member_of adopted listed false o o' o'' h a i g = ground arith

-- what is in the directory under a stem
pub record Cleaned (live : Bool) (key : Bytes) (root root' : Root) : Type 0 where
  pub metadata :
      get_item key root'.metadata_files ≡ (if live then get_item key root.metadata_files else none)
  pub message :
      get_item key root'.message_files ≡ (if live then get_item key root.message_files else none)

opened :
    (clock : Clock) (quarantine_days greylist_days : ℕ) (root : Root)
    → root.exists ≡ true
    → (cleanup_expired clock quarantine_days greylist_days root).0 ≡ (
        let st =
          cleanup_stems clock quarantine_days greylist_days (stems root.metadata_files) (root, 0) in
        (drop_orphans (stems st.0.message_files) (st.0, st.1)).0)
unfolding cleanup_expired
opened clock quarantine_days greylist_days root e = rw e refl

-- `cleanup_expired` leaves the records that are readable, of a known kind and within the days of this
-- kind, with their messages, and nothing else: no other metadata and no message without.
pub cleanup_expired-Cleaned :
    (clock : Clock) (quarantine_days greylist_days : ℕ) (root : Root) (key : Bytes)
    → root.exists ≡ true
    → Cleaned
        (live_at clock quarantine_days greylist_days root key)
        key
        root
        (cleanup_expired clock quarantine_days greylist_days root).0
cleanup_expired-Cleaned clock quarantine_days greylist_days root key e =
    let live = live_at clock quarantine_days greylist_days root key in
    let st =
      cleanup_stems clock quarantine_days greylist_days (stems root.metadata_files) (root, 0) in
    let left =
      cleanup_stems-Left clock quarantine_days greylist_days (stems root.metadata_files) key root
        0 in
    let rest = drop_orphans-Adopted (stems st.0.message_files) key st.0 st.1 in
    let there : live ≡ true → is_some (get_item key root.metadata_files) ≡ true =
      λ h. ground arith in
    let metadata : get_item key st.0.metadata_files
        ≡ (if live then get_item key root.metadata_files else none) =
      left-metadata (member key (stems root.metadata_files)) live _ _
        (member-stems key root.metadata_files ∙ has_key-is_some key root.metadata_files) there
        left.metadata in
    let adopted : has_key key st.0.metadata_files ≡ live =
      has_key-is_some key st.0.metadata_files ∙ ground (arith, metadata, there) in
    subst (Cleaned live key root) (sym (opened clock quarantine_days greylist_days root e))
      (record {
        metadata = ap (get_item key) rest.same_metadata ∙ metadata;
        message =
            left-message (member key (stems root.metadata_files)) (has_key key st.0.metadata_files)
              (member key (stems st.0.message_files)) live _ _ _ left.message adopted
              (member-stems key st.0.message_files ∙ has_key-is_some key st.0.message_files)
              rest.message_left;
      })
