-- ===== src/Session/Base64.antt =====
-- `_encode` and `_decode` of `MailuSessionConfig`: the URL-safe base 64 of the standard library,
-- without the padding. The decoder is `binascii.a2b_base64`, which passes over other characters.
pub mod RoundTrip
use mailu.Prelude.{
  ℕ, zero, suc, ◌+◌, ◌-◌, ◌*◌, ◌/◌, ◌%◌, ◌&&◌, ◌||◌, Option, none, some, [], ◌∷◌, ◌++◌, ltb, leb,
  ◌==◌, if◌then◌else◌, length, Bytes,
}

-- the character of six bits, and back; the alphabet of the other base 64 is understood as well
abbrev pub char : ℕ → ℕ
char n =
    if ltb n 26
    then n + 65
    else if ltb n 52
    then n + 71
    else if ltb n 62
    then n - 4
    else if n == 62
    then b'-'
    else b'_'

abbrev pub sextet : ℕ → Option ℕ
sextet c =
    if leb 65 c && leb c 90
    then some (c - 65)
    else if leb 97 c && leb c 122
    then some (c - 71)
    else if leb 48 c && leb c 57
    then some (c + 4)
    else if c == b'-' || c == b'+'
    then some 62
    else if c == b'_' || c == b'/'
    then some 63
    else none

-- `urlsafe_b64encode(value).rstrip(b'=')`
unfoldable pub encode : Bytes → Bytes
encode [] = []
encode (a ∷ []) = char (a / 4) ∷ char (a % 4 * 16) ∷ []
encode (a ∷ b ∷ []) = char (a / 4) ∷ char (a % 4 * 16 + b / 16) ∷ char (b % 16 * 4) ∷ []
encode (a ∷ b ∷ c ∷ rest) =
    char (a / 4)
    ∷ char (a % 4 * 16 + b / 16)
    ∷ char (b % 16 * 4 + c / 64)
    ∷ char (c % 64)
    ∷ encode rest

abbrev add_byte : Option ℕ → Option Bytes → Option Bytes
add_byte out none = none
add_byte none (some bs) = some bs
add_byte (some b) (some bs) = some (b ∷ bs)

-- a turn of the decoder's loop: its end, or a byte for the output, the place in a group of four, the
-- bits left over and the padding so far
pub data Turn : Type 0 where
  stop : Turn
  go_on : (out : Option ℕ) (quad left pads : ℕ) → Turn

abbrev digit : ℕ → ℕ → ℕ → Turn
digit n zero left = go_on none 1 n 0
digit n (suc zero) left = go_on (some (left * 4 + n / 16)) 2 (n % 16) 0
digit n (suc (suc zero)) left = go_on (some (left * 16 + n / 4)) 3 (n % 4) 0
digit n (suc (suc (suc m))) left = go_on (some (left * 64 + n)) 0 0 0

unfoldable pub turn : ℕ → ℕ → ℕ → ℕ → Turn
turn c quad left pads =
    if c == b'='
    then (if leb 2 quad
        then (if leb 4 (quad + suc pads) then stop else go_on none quad left (suc pads))
        else go_on none quad left pads)
    else elim (sextet c) [ none ↦ go_on none quad left pads | some n ↦ digit n quad left ]

-- a group that is left open is an error
unfoldable pub decode_from : ℕ → ℕ → ℕ → Bytes → Option Bytes
unfolding turn
decode_from quad left pads [] = if quad == 0 then some [] else none
decode_from quad left pads (c ∷ cs) = elim (turn c quad left pads) [
  | stop ↦ some []
  | go_on out quad' left' pads' ↦ add_byte out (decode_from quad' left' pads' cs)
]

abbrev equals : ℕ → Bytes
equals zero = []
equals (suc n) = b'=' ∷ equals n

unfoldable pub decode : Bytes → Option Bytes
unfolding decode_from
decode value = decode_from 0 0 0 (value ++ equals (4 - length value % 4))
