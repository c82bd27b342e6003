-- ===== src/Mail/Resolve.antt =====
-- `Email.resolve_domain`, `Email.resolve_destination` and `Alias.resolve` of
-- core/admin/mailu/models.py: where a message for an address goes.
pub mod Aliases
pub mod Destination
pub mod Precedence
use mathlib.Core.Option
use mailu.Prelude.{
  Bool, true, false, not, ◌&&◌, ◌||◌, Option, none, some, List, [], ◌∷◌, ◌++◌, map, ltb,
  if◌then◌else◌, length, drop, filter, any, Bytes, bytes_eq, has, rsplit, lower,
}
use mailu.Mail.{
  Result, returned, Idna, User, Alias, Db, at, bind_domain, read_domain, get_user, get_alternative,
  ◌>>=◌,
}
use mailu.Mail.Columns.{comma_read}

-- the owner, when there is one, is an enabled user
unfoldable pub owner_enabled : Db → Alias → Bool
owner_enabled db a = elim a.owner_email [
  | none ↦ true
  | some owner ↦ any (λ (u : User). bytes_eq u.email owner && u.enabled) db.users
]

-- An absent local part is NULL, which equals and is LIKE nothing.
abbrev pub matches : (Bytes → Bytes → Bool) → Option Bytes → Bytes → Bool → Bool
matches like none pattern wildcard = false
matches like (some localpart) pattern wildcard =
    if wildcard then like localpart pattern else bytes_eq pattern localpart

unfoldable pub matches_case : (Bytes → Bytes → Bool) → Option Bytes → Alias → Bool
matches_case like localpart a = matches like localpart a.localpart a.wildcard

-- `localpart.lower() if localpart else None`
unfoldable pub lower_given : Option Bytes → Option Bytes
lower_given none = none
lower_given (some []) = none
lower_given (some (c ∷ cs)) = some (lower (c ∷ cs))

unfoldable pub matches_lower : (Bytes → Bytes → Bool) → Option Bytes → Alias → Bool
matches_lower like localpart a = matches like (lower_given localpart) (lower a.localpart) a.wildcard

unfoldable pub is_active : Db → Bytes → Alias → Bool
is_active db key a = bytes_eq a.domain_name key && not a.disabled && owner_enabled db a

-- ORDER BY wildcard, char_length(localpart) DESC
unfoldable pub sorts_before : Alias → Alias → Bool
sorts_before a b =
    let longer = ltb (length b.localpart) (length a.localpart) in
    if a.wildcard then b.wildcard && longer else b.wildcard || longer

better : Alias → Option Alias → Alias
better a none = a
better a (some b) = if sorts_before b a then b else a

-- the first row in that order, of equal ones the first of the table
unfoldable pub top : List Alias → Option Alias
unfolding better
top [] = none
top (a ∷ rows) = some (better a (top rows))

unfoldable pub choose_case : Option Alias → Option Alias → Option Alias
choose_case (some preserve) (some low) = some (if preserve.wildcard then low else preserve)
choose_case (some preserve) none = some preserve
choose_case none low = low

-- `localpart[:pos]` before the first delimiter; no delimiters are none
unfoldable pub strip_detail : Bytes → Bytes → Option Bytes
strip_detail delims [] = none
strip_detail delims (c ∷ cs) =
    let rest = strip_detail delims cs in
    if has c delims then some [] else Option.map (λ stripped. c ∷ stripped) rest

unfoldable pub append_detail : Bytes → Bytes → Bytes
append_detail [] address = address
append_detail (c ∷ detail) address = elim (rsplit b'@' address) [
  | none ↦ address
  | some (localpart, domain_name) ↦ at (localpart ++ c ∷ detail) domain_name
]

-- what a mailbox does with a message for `email`
unfoldable pub mailbox_destination : Bool → Bytes → User → List Bytes
mailbox_destination ignore_forward_keep email u =
    if not u.forward_enabled
    then email ∷ []
    else if u.forward_keep || ignore_forward_keep
    then comma_read u.forward_destination ++ email ∷ []
    else comma_read u.forward_destination

-- `email.rsplit('@', 1) if '@' in email else (None, email)`
unfoldable pub split_address : Bytes → Option Bytes × Bytes
split_address email = elim (rsplit b'@' email) [
  | none ↦ (none, email)
  | some (localpart, domain_name) ↦ (some localpart, domain_name)
]

abbrev pub destinations : Alias → List Bytes
destinations a = comma_read a.destination

module _ (idna : Idna) where
  unfoldable pub resolve_domain : Db → Bytes → Result (Option Bytes × Bytes)
  unfolding split_address
  resolve_domain db email = do
    let (localpart, domain_name) = split_address email
    found ← get_alternative idna db domain_name
    elim found [
      | none ↦ returned (localpart, domain_name)
      | some alternative ↦ do
        name ← read_domain idna alternative.domain_name
        returned (localpart, name)
    ]

  -- the mailbox of the address, or else of the address without its detail
  unfoldable pub find_mailbox : Db → Bytes → Option Bytes → Bytes → Result (Option User)
  find_mailbox db localpart stripped domain_name = do
    user ← get_user idna db (at localpart domain_name)
    elim user [
      | some u ↦ returned (some u)
      | none ↦ elim stripped [
        | none ↦ returned none
        | some [] ↦ returned none
        | some (c ∷ cs) ↦ get_user idna db (at (c ∷ cs) domain_name)
      ]
    ]

module _ (idna : Idna) (like : Bytes → Bytes → Bool) where
  -- `Alias.resolve`
  unfoldable pub resolve_alias : Db → Option Bytes → Bytes → Result (Option Alias)
  resolve_alias db localpart domain_name = do
    key ← bind_domain idna domain_name
    let rows = filter (is_active db key) db.aliases
    returned (
        choose_case (top (filter (matches_case like localpart) rows))
          (top (filter (matches_lower like localpart) rows)))

  -- the alias of the address without its detail, when no explicit alias has the whole address
  unfoldable pub stripped_destination :
      Db → Bytes → Option Bytes → Bytes → Option Alias → Result (Option (List Bytes))
  stripped_destination db localpart stripped domain_name pure_alias = do
    found ← resolve_alias db stripped domain_name
    elim found [
      | none ↦ returned (Option.map destinations pure_alias)
      | some a ↦
          if a.wildcard
          then returned (some (destinations a))
          else let detail = drop (elim stripped [ none ↦ 0 | some s ↦ length s ]) localpart in
            returned (some (map (append_detail detail) (destinations a)))
    ]

  unfoldable pub alias_destination :
      Db → Bytes → Option Bytes → Bytes → Result (Option (List Bytes))
  alias_destination db localpart stripped domain_name = do
    pure_alias ← resolve_alias db (some localpart) domain_name
    elim pure_alias [
      | none ↦ stripped_destination db localpart stripped domain_name none
      | some a ↦
          if a.wildcard
          then stripped_destination db localpart stripped domain_name (some a)
          else returned (some (destinations a))
    ]

  unfoldable pub resolve_destination :
      Bytes → Db → Bool → Bytes → Bytes → Result (Option (List Bytes))
  resolve_destination delims db ignore_forward_keep localpart domain_name = do
    let stripped = strip_detail delims localpart
    user ← find_mailbox idna db localpart stripped domain_name
    elim user [
      | some u ↦
          returned (some (mailbox_destination ignore_forward_keep (at localpart domain_name) u))
      | none ↦ alias_destination db localpart stripped domain_name
    ]
