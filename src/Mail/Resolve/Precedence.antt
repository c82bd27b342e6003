-- ===== src/Mail/Resolve/Precedence.antt =====
-- Mailboxes before aliases, and the detail of an address behind an explicit alias.
use mailu.Prelude.{
  ℕ, ◌≡◌, refl, sym, ap, Bool, true, false, Option, none, some, List, [], ◌∷◌, ◌++◌, map,
  append-nil, arith, length, drop, any, all, Bytes, has, count,
}
use mailu.Mail.{returned, Idna, User, Alias, Db, at, get_user}
use mailu.Mail.Bind.{rsplit-at}
use mailu.Mail.Resolve.{
  strip_detail, append_detail, find_mailbox, destinations, resolve_alias, stripped_destination,
  alias_destination, resolve_destination,
}

strip_detail-append :
    (delims base rest : Bytes) (c : ℕ)
    → any (λ x. has x delims) base ≡ false
    → has c delims ≡ true
    → strip_detail delims (base ++ c ∷ rest) ≡ some base
unfolding strip_detail
strip_detail-append delims [] rest c h k = ground arith
strip_detail-append delims (x ∷ base) rest c h k =
    ground (arith, strip_detail-append delims base rest c)

drop-append : (xs ys : Bytes) → drop (length xs) (xs ++ ys) ≡ ys
drop-append [] ys = refl
drop-append (x ∷ xs) ys = drop-append xs ys

-- The detail goes behind the local part of a destination.
append_detail-at :
    (detail l d : Bytes) → count b'@' d ≡ 0 → append_detail detail (at l d) ≡ at (l ++ detail) d
unfolding append_detail
append_detail-at [] l d h = ap (λ x. at x d) (sym (append-nil l))
append_detail-at (c ∷ detail) l d h = ground (arith, rsplit-at l d)

module _ (idna : Idna) (like : Bytes → Bytes → Bool) (delims : Bytes) (db : Db)
    (ignore_forward_keep : Bool) where
  -- When there is a mailbox for an address, with its detail or without, the aliases have no say:
  -- whatever they are, the message goes to the same places.
  pub resolve_destination-mailbox :
      (localpart domain_name : Bytes) (u : User) (others : List Alias)
      → find_mailbox idna db localpart (strip_detail delims localpart) domain_name
        ≡ returned (some u)
      → resolve_destination idna like delims db ignore_forward_keep localpart domain_name
        ≡ resolve_destination idna like delims
            (record db { aliases = others })
            ignore_forward_keep
            localpart
            domain_name
  unfolding resolve_destination find_mailbox get_user
  resolve_destination-mailbox localpart domain_name u others h = ground arith

  -- An address with a detail, whose base is an explicit alias and which is neither a mailbox nor an
  -- explicit alias itself, goes to the destinations of that alias with the whole detail put back.
  pub resolve_destination-detail :
      (base detail domain_name : Bytes) (c : ℕ) (a : Alias) (whole : Option Alias)
      → any (λ x. has x delims) base ≡ false
      → has c delims ≡ true
      → find_mailbox idna db (base ++ c ∷ detail) (some base) domain_name ≡ returned none
      → resolve_alias idna like db (some (base ++ c ∷ detail)) domain_name ≡ returned whole
      → all (λ (w : Alias). w.wildcard) (elim whole [ none ↦ [] | some w ↦ w ∷ [] ]) ≡ true
      → resolve_alias idna like db (some base) domain_name ≡ returned (some a)
      → a.wildcard ≡ false
      → resolve_destination idna like delims db ignore_forward_keep (base ++ c ∷ detail) domain_name
        ≡ returned (some (map (append_detail (c ∷ detail)) (destinations a)))
  unfolding resolve_destination alias_destination stripped_destination
  resolve_destination-detail base detail domain_name c a whole clean delim no_mailbox pure wild
        stripped explicit =
      ground (arith, strip_detail-append delims base detail c, drop-append base (c ∷ detail))
