-- ===== src/Mail/Postfix/Transport.antt =====
-- `postfix_transport` of core/admin/mailu/internal/views/postfix.py: the target of a relayed domain,
-- read into a transport of Postfix.
pub mod Targets
use mathlib.Core.Option
use mailu.Prelude.{
  ℕ, ◌+◌, ◌-◌, ◌*◌, Bool, true, false, not, ◌&&◌, ◌||◌, Option, none, some, [], ◌∷◌, ◌++◌, map, ltb,
  ◌==◌, if◌then◌else◌, is_some, Bytes, codes, bytes_eq, decimal, is_digit, has, rsplit, count,
  lower,
}
use mailu.Mail.{Result, returned, raised, Idna, Relay, Db, read_domain, get_relay, ◌>>=◌}
use mailu.Mail.Columns.{strip, is_empty}
use mailu.Mail.Resolve.{resolve_domain}
use mailu.Mail.Postfix.{Response, json, error, not_found, is_bracketed, unsupported_address}

-- `text.startswith(prefix)`, with the text behind the prefix
unfoldable pub after_prefix : Bytes → Bytes → Option Bytes
after_prefix [] text = some text
after_prefix (p ∷ ps) [] = none
after_prefix (p ∷ ps) (c ∷ cs) = let rest = after_prefix ps cs in if c == p then rest else none

-- `text.split(d, 1)` where `d` is in the text
unfoldable pub split_first : ℕ → Bytes → Option (Bytes × Bytes)
split_first d [] = none
split_first d (c ∷ cs) =
    let rest = split_first d cs in
    if c == d
    then some ([], cs)
    else elim rest [ none ↦ none | some (left, right) ↦ some (c ∷ left, right) ]

-- the digits of an `int`, an underscore between two of them at most
unfoldable pub int_digits : ℕ → Bytes → Option ℕ
int_digits v [] = some v
int_digits v (c ∷ []) = if is_digit c then some (v * 10 + (c - 48)) else none
int_digits v (c ∷ d ∷ cs) =
    let more = int_digits (v * 10 + (c - 48)) (d ∷ cs) in
    let skip = int_digits (v * 10 + (c - 48)) cs in
    if not (is_digit c)
    then none
    else if d == b'_'
    then (if is_empty cs then none else skip)
    else more

unsigned : Bytes → Option ℕ
unsigned [] = none
unsigned (c ∷ cs) = int_digits 0 (c ∷ cs)

negative : Option ℕ → Option Bytes
negative none = none
negative (some v) = some (if v == 0 then decimal 0 else b'-' ∷ decimal v)

signed : Bytes → Option Bytes
unfolding unsigned negative
signed [] = none
signed (c ∷ cs) =
    if c == b'-'
    then negative (unsigned cs)
    else Option.map decimal (unsigned (if c == b'+' then cs else c ∷ cs))

-- `int(text, 10)`, printed again; none is a ValueError
unfoldable pub int_text : Bytes → Option Bytes
unfolding signed
int_text text = signed (strip text)

pub data Mode : Type 0 where
  direct mx lmtp : Mode

abbrev is_mx : Mode → Bool
is_mx mode = elim mode [ mx ↦ true | _ ↦ false ]

abbrev is_lmtp : Mode → Bool
is_lmtp mode = elim mode [ lmtp ↦ true | _ ↦ false ]

abbrev is_direct : Mode → Bool
is_direct mode = elim mode [ direct ↦ true | _ ↦ false ]

unfoldable pub strip_prefix : Bytes → Mode × Bytes
strip_prefix target = elim (after_prefix (codes "mx:") target) [
  | some rest ↦ (mx, rest)
  | none ↦ elim (after_prefix (codes "lmtp:") target) [
    | some rest ↦ (lmtp, rest)
    | none ↦ (direct, target)
  ]
]

-- the port that follows a bracketed host
port_behind : Bytes × Bytes → Option (Bytes × Option Bytes)
port_behind (host, []) = some (host, none)
port_behind (host, c ∷ port) = if c == b':' then some (host, some port) else none

bracketed_host : Mode → Bytes → Option (Bytes × Option Bytes)
unfolding port_behind
bracketed_host mode target =
    if is_mx mode
    then none
    else elim (split_first b']' target) [ none ↦ none | some parts ↦ port_behind parts ]

-- the host and the port; none is an invalid target
unfoldable pub split_port : Mode → Bytes → Option (Bytes × Option Bytes)
unfolding bracketed_host
split_port mode [] = some ([], none)
split_port mode (c ∷ target) =
    if c == b'['
    then bracketed_host mode target
    else if ltb 1 (count b':' (c ∷ target))
    then none
    else elim (rsplit b':' (c ∷ target)) [
      | none ↦ some (c ∷ target, none)
      | some (host, port) ↦ some (host, some port)
    ]

-- the relayed domain's MX stands in for a missing host
unfoldable pub default_host : Bytes → Mode → Bytes → Option (Mode × Bytes)
default_host name mode [] = if is_lmtp mode then none else some (mx, lower name)
default_host name mode (c ∷ host) = some (mode, c ∷ host)

unfoldable pub encode_host : Idna → Bytes → Option Bytes
encode_host idna host = if has b':' host then some (codes "ipv6:" ++ host) else idna.encode host

unfoldable pub port_suffix : Option Bytes → Option Bytes
port_suffix none = some []
port_suffix (some port) = Option.map (λ text. b':' ∷ text) (int_text port)

unfoldable pub show_transport : Mode → Bytes → Bytes → Bytes
show_transport mode host suffix =
    (if is_lmtp mode then codes "lmtp" else codes "smtp")
    ++ b':'
      ∷ (if is_some (after_prefix (codes "ipv6:") host) || is_direct mode
          then b'[' ∷ host ++ b']' ∷ []
          else host)
    ++ suffix

-- what `(^|.*@)\[.*\]$` matches, in a text of one `@` at most
unfoldable pub is_literal : Bytes → Bool
is_literal email = is_bracketed email || elim (rsplit b'@' email) [
  | none ↦ false
  | some (localpart, domain_name) ↦ not (has 10 localpart) && is_bracketed domain_name
]

module _ (idna : Idna) where
  answer_parts : Option (Mode × Bytes) → Option Bytes → Response
  answer_parts none port = error 400
  answer_parts (some (mode, host)) port = elim (encode_host idna host) [
    | none ↦ error 400
    | some encoded ↦ elim (port_suffix port) [
      | none ↦ error 400
      | some suffix ↦ json (show_transport mode encoded suffix)
    ]
  ]

  -- what a lowered target of the relayed domain means
  unfoldable pub answer_target : Bytes → Bytes → Response
  unfolding answer_parts
  answer_target name target =
      let (mode, rest) = strip_prefix target in
      elim (split_port mode rest) [
        | none ↦ error 400
        | some (host, port) ↦ answer_parts (default_host name mode host) port
      ]

  -- `relay.smtp.lower()` of a relay without a target is an AttributeError
  unfoldable pub answer_relay : Relay → Result Response
  answer_relay r = elim r.smtp [
    | none ↦ raised
    | some smtp ↦ do name ← read_domain idna r.name; returned (answer_target name (lower smtp))
  ]

  unfoldable pub transport : Db → Bytes → Result Response
  transport db email =
      if unsupported_address idna false email || bytes_eq email (codes "*") || is_literal email
      then returned not_found
      else (do
        (localpart, domain_name) ← resolve_domain idna db email
        found ← get_relay idna db domain_name
        elim found [ none ↦ returned not_found | some r ↦ answer_relay r ])
