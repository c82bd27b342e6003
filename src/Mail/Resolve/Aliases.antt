-- ===== src/Mail/Resolve/Aliases.antt =====
-- What `Alias.resolve` finds.
use mathlib.Core.List.{Memᴰ}
use mathlib.Core.List.Memᴰ.{head, tail}
use mailu.Prelude.{
  bytes_eq→eq, ◌≡◌, refl, sym, ap, ◌∙◌, subst, ◌⊎◌, inl, inr, Bool, true, false, not, ◌&&◌, ◌||◌,
  Option, none, some, List, [], ◌∷◌, arith, if◌then◌else◌, Bool-cases, filter, Bytes, mem-filter,
  filter-mem,
}
use mailu.Mail.{returned, ◌>>=◌, Idna, Alias, Db, bind_domain, bind_inverse}
use mailu.Mail.Resolve.{
  owner_enabled, is_active, matches_case, matches_lower, sorts_before, better, top, choose_case,
  resolve_alias,
}

better-mem :
    (a : Alias) (rows : List Alias) (o : Option Alias)
    → ((c : Alias) → o ≡ some c → Memᴰ c rows)
    → Memᴰ (better a o) (a ∷ rows)
unfolding better
better-mem a rows none h = head refl
better-mem a rows (some b) h = elim (Bool-cases (sorts_before b a)) [
  | inl t ↦ subst (λ x. Memᴰ (if x then b else a) (a ∷ rows)) (sym t) (tail (h b refl))
  | inr f ↦ subst (λ x. Memᴰ (if x then b else a) (a ∷ rows)) (sym f) (head refl)
]

top-mem : (b : Alias) (rows : List Alias) → top rows ≡ some b → Memᴰ b rows
unfolding top
top-mem b [] h = cc
top-mem b (a ∷ rows) h =
    subst (λ c. Memᴰ c (a ∷ rows)) (ground arith)
      (better-mem a rows (top rows) (λ c e. top-mem c rows e))

sorts_before_trans :
    (a b c : Alias) → sorts_before a b ≡ false → sorts_before b c ≡ false → sorts_before a c ≡ false
unfolding sorts_before
sorts_before_trans a b c h k = ground arith

sorts_before-asym : (a b : Alias) → sorts_before a b ≡ true → sorts_before b a ≡ false
unfolding sorts_before
sorts_before-asym a b h = ground arith

sorts_before_irrefl : (a : Alias) → sorts_before a a ≡ false
unfolding sorts_before
sorts_before_irrefl a = ground arith

better-head : (a : Alias) (o : Option Alias) → sorts_before a (better a o) ≡ false
unfolding better
better-head a none = sorts_before_irrefl a
better-head a (some b) = ground (arith, sorts_before-asym b a, sorts_before_irrefl a)

better-tail :
    (a b x : Alias) → sorts_before a b ≡ false → sorts_before a (better x (some b)) ≡ false
unfolding better
better-tail a b x h = ground (arith, sorts_before_trans a b x)

top-first :
    (a : Alias) (rows : List Alias)
    → Memᴰ a rows
    → (b : Alias) × (top rows ≡ some b) × (sorts_before a b ≡ false)
unfolding top
top-first a [] m = elim m [ ]
top-first a (x ∷ rows) (head e) = (
  better x (top rows),
  refl,
  subst (λ c. sorts_before c (better x (top rows)) ≡ false) (sym e) (better-head x (top rows)),
)
top-first a (x ∷ rows) (tail m) =
    let (b, found, first) = top-first a rows m in
    (better x (some b), ap (λ o. some (better x o)) found, better-tail a b x first)

-- what `Alias.resolve` promises of an alias that it returns
pub record Resolved (idna : Idna) (like : Bytes → Bytes → Bool) (db : Db) (localpart : Option Bytes)
    (domain_name : Bytes) (a : Alias) : Type 0 where
  pub key : Bytes
  pub bound : bind_domain idna domain_name ≡ returned key
  pub stored : Memᴰ a db.aliases
  pub own : a.domain_name ≡ key
  pub undisabled : a.disabled ≡ false
  pub owner : owner_enabled db a ≡ true
  pub matching : (matches_case like localpart a || matches_lower like localpart a) ≡ true

choose_case_inverse :
    (o low : Option Alias) (a : Alias) → choose_case o low ≡ some a → (o ≡ some a) ⊎ (low ≡ some a)
unfolding choose_case
choose_case_inverse none low a h = inr h
choose_case_inverse (some p) none a h = inl h
choose_case_inverse (some p) (some b) a h = elim (Bool-cases p.wildcard) [
  | inl t ↦ inr (ground arith)
  | inr f ↦ inl (ground arith)
]

choose_case-left :
    (a b : Alias) (low : Option Alias)
    → sorts_before a b ≡ false
    → (c : Alias) × (choose_case (some b) low ≡ some c) × ((not a.wildcard && c.wildcard) ≡ false)
unfolding choose_case sorts_before
choose_case-left a b none h = (b, refl, ground arith)
choose_case-left a b (some c) h = (if b.wildcard then c else b, refl, ground arith)

choose_case-right :
    (a b : Alias) (o : Option Alias)
    → sorts_before a b ≡ false
    → (c : Alias) × (choose_case o (some b) ≡ some c) × ((not a.wildcard && c.wildcard) ≡ false)
unfolding choose_case sorts_before
choose_case-right a b none h = (b, refl, ground arith)
choose_case-right a b (some p) h = (if p.wildcard then b else p, refl, ground arith)

module _ (idna : Idna) (like : Bytes → Bytes → Bool) (db : Db) (localpart : Option Bytes)
    (domain_name : Bytes) where
  top-Resolved :
      (key : Bytes) (p : Alias → Bool) (a : Alias)
      → top (filter p (filter (is_active db key) db.aliases)) ≡ some a
      → Memᴰ a db.aliases × (is_active db key a ≡ true) × (p a ≡ true)
  top-Resolved key p a h =
      let (m, e) = filter-mem p (filter (is_active db key) db.aliases) (top-mem a _ h) in
      let (n, f) = filter-mem (is_active db key) db.aliases m in (n, f, e)

  active_row :
      (key : Bytes) (a : Alias)
      → bind_domain idna domain_name ≡ returned key
      → Memᴰ a db.aliases
      → is_active db key a ≡ true
      → (matches_case like localpart a || matches_lower like localpart a) ≡ true
      → Resolved idna like db localpart domain_name a
  unfolding is_active
  active_row key a bound m f g = record {
    key = key;
    bound = bound;
    stored = m;
    own = bytes_eq→eq a.domain_name key (ground arith);
    undisabled = ground arith;
    owner = ground arith;
    matching = g;
  }

  -- An alias that is resolved is in the table, under the domain asked for, not disabled, of no owner
  -- or an enabled one, and matches the local part as it is or in lower case.
  pub resolve_alias-Resolved :
      (a : Alias)
      → resolve_alias idna like db localpart domain_name ≡ returned (some a)
      → Resolved idna like db localpart domain_name a
  unfolding resolve_alias
  resolve_alias-Resolved a h =
      let (key, bound, e) = bind_inverse (bind_domain idna domain_name) _ h in
      elim (choose_case_inverse _ _ a (ground arith)) [
        | inl t ↦
            let (m, f, g) = top-Resolved key (matches_case like localpart) a t in
            active_row key a bound m f (ground arith)
        | inr t ↦
            let (m, f, g) = top-Resolved key (matches_lower like localpart) a t in
            active_row key a bound m f (ground arith)
      ]

  active-first :
      (key : Bytes) (p : Alias → Bool) (a : Alias)
      → Memᴰ a db.aliases
      → is_active db key a ≡ true
      → p a ≡ true
      → (b : Alias) × (top (filter p (filter (is_active db key) db.aliases)) ≡ some b)
        × (sorts_before a b ≡ false)
  active-first key p a m f g = top-first a _ (
      mem-filter p (filter (is_active db key) db.aliases)
        (mem-filter (is_active db key) db.aliases m f) g)

  preserved : Bytes → Option Alias
  preserved key = top (filter (matches_case like localpart) (filter (is_active db key) db.aliases))

  lowered : Bytes → Option Alias
  lowered key = top (filter (matches_lower like localpart) (filter (is_active db key) db.aliases))

  found :
      (key : Bytes)
      → bind_domain idna domain_name ≡ returned key
      → (c : Alias) → choose_case (preserved key) (lowered key) ≡ some c
      → resolve_alias idna like db localpart domain_name ≡ returned (some c)
  unfolding resolve_alias preserved lowered
  found key bound c h =
      ap (λ r. r >>= λ k. returned (choose_case (preserved k) (lowered k))) bound ∙ ap returned h

  -- When an active alias of the domain matches, one is resolved; and a wildcard is resolved only when
  -- no explicit alias matches.
  pub resolve_alias-found :
      (key : Bytes) (a : Alias)
      → bind_domain idna domain_name ≡ returned key
      → Memᴰ a db.aliases
      → is_active db key a ≡ true
      → (matches_case like localpart a || matches_lower like localpart a) ≡ true
      → (b : Alias) × (resolve_alias idna like db localpart domain_name ≡ returned (some b))
        × ((not a.wildcard && b.wildcard) ≡ false)
  unfolding resolve_alias preserved lowered
  resolve_alias-found key a bound m f g = elim (Bool-cases (matches_case like localpart a)) [
    | inl t ↦
        let (b, e, first) = active-first key (matches_case like localpart) a m f t in
        let (c, h, kept) = choose_case-left a b (lowered key) first in
        (c, found key bound c (ap (λ o. choose_case o (lowered key)) e ∙ h), kept)
    | inr t ↦
        let (b, e, first) = active-first key (matches_lower like localpart) a m f (ground arith) in
        let (c, h, kept) = choose_case-right a b (preserved key) first in
        (c, found key bound c (ap (choose_case (preserved key)) e ∙ h), kept)
  ]
