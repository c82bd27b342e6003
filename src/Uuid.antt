-- ===== src/Uuid.antt =====
-- The standard library's `uuid.UUID` for a text, and `str` of it, as the quarantine and the passkeys use
-- them.
pub mod RoundTrip
use mailu.Prelude.{
  ℕ, zero, suc, ◌+◌, ◌-◌, ◌*◌, ◌/◌, ◌%◌, Bool, true, false, not, ◌&&◌, ◌||◌, Option, none, some, [],
  ◌∷◌, ◌++◌, ltb, leb, ◌==◌, if◌then◌else◌, length, take, drop, filter, Bytes, codes, is_space,
}

unfoldable pub starts_with : Bytes → Bytes → Bool
starts_with [] text = true
starts_with (p ∷ prefix) [] = false
starts_with (p ∷ prefix) (c ∷ text) = p == c && starts_with prefix text

-- `text.replace(pattern, '')`: behind a match, as many characters are passed over as are left of it
unfoldable pub remove_text : Bytes → ℕ → Bytes → Bytes
unfolding starts_with
remove_text pattern skip [] = []
remove_text pattern (suc skip) (c ∷ cs) = remove_text pattern skip cs
remove_text pattern zero (c ∷ cs) =
    if starts_with pattern (c ∷ cs)
    then remove_text pattern (length pattern - 1) cs
    else c ∷ remove_text pattern 0 cs

-- `strip('{}')`
abbrev pub brace : ℕ → Bool
brace c = c == b'{' || c == b'}'

unfoldable pub lstrip_by : (ℕ → Bool) → Bytes → Bytes
lstrip_by p [] = []
lstrip_by p (c ∷ cs) = let rest = lstrip_by p cs in if p c then rest else c ∷ cs

abbrev rcons_by : (ℕ → Bool) → ℕ → Bytes → Bytes
rcons_by p c [] = if p c then [] else c ∷ []
rcons_by p c (d ∷ ds) = c ∷ d ∷ ds

unfoldable pub rstrip_by : (ℕ → Bool) → Bytes → Bytes
rstrip_by p [] = []
rstrip_by p (c ∷ cs) = rcons_by p c (rstrip_by p cs)

abbrev pub no_dash : ℕ → Bool
no_dash c = not (c == b'-')

abbrev pub hex_digit : ℕ → Option ℕ
hex_digit c =
    if leb 48 c && leb c 57
    then some (c - 48)
    else if leb 97 c && leb c 102
    then some (c - 87)
    else if leb 65 c && leb c 70
    then some (c - 55)
    else none

-- the digits of `int(text, 16)`, with single underscores between them
unfoldable pub hex_digits : Bool → ℕ → Bytes → Option ℕ
hex_digits after v [] = if after then some v else none
hex_digits after v (c ∷ cs) = elim (hex_digit c) [
  | some d ↦ hex_digits true (v * 16 + d) cs
  | none ↦ if after && c == b'_' then hex_digits false v cs else none
]

-- `0x` may stand in front, with an underscore behind it
abbrev after_prefix : Bytes → Option ℕ
after_prefix (c ∷ cs) = if c == b'_' then hex_digits false 0 cs else hex_digits false 0 (c ∷ cs)
after_prefix [] = none

unfoldable pub hex_unsigned : Bytes → Option ℕ
unfolding hex_digits
hex_unsigned (c ∷ d ∷ cs) =
    if c == 48 && (d == b'x' || d == b'X') then after_prefix cs else hex_digits false 0 (c ∷ d ∷ cs)
hex_unsigned cs = hex_digits false 0 cs

abbrev unsigned : Bytes → Bytes
unsigned [] = []
unsigned (c ∷ cs) = if c == b'+' then cs else c ∷ cs

-- a minus sign is gone before
unfoldable pub int_hex : Bytes → Option ℕ
unfolding hex_unsigned lstrip_by rstrip_by
int_hex text = hex_unsigned (unsigned (rstrip_by is_space (lstrip_by is_space text)))

-- the numbers of `k` digits, and of 128 bits
abbrev pub power : ℕ → ℕ
power zero = 1
power (suc k) = 16 * power k

abbrev pub fits : ℕ → Bool
fits n = ltb n (power 32)

abbrev pub in_range : Option ℕ → Option ℕ
in_range none = none
in_range (some n) = if fits n then some n else none

-- `uuid.UUID(text).int`; none is a ValueError
unfoldable pub uuid : Bytes → Option ℕ
unfolding remove_text lstrip_by rstrip_by int_hex
uuid text =
    let bare = remove_text (codes "uuid:") 0 (remove_text (codes "urn:") 0 text) in
    let hex = filter no_dash (rstrip_by brace (lstrip_by brace bare)) in
    if length hex == 32 then in_range (int_hex hex) else none

abbrev pub hex_char : ℕ → ℕ
hex_char d = if ltb d 10 then d + 48 else d + 87

-- `'%032x'`, for `k` digits
unfoldable pub hex_print : ℕ → ℕ → Bytes → Bytes
hex_print zero n acc = acc
hex_print (suc k) n acc = hex_print k (n / 16) (hex_char (n % 16) ∷ acc)

abbrev pub dashed : Bytes → Bytes
dashed hex =
    take 8 hex
    ++ (b'-'
        ∷ (take 4 (drop 8 hex)
            ++ (b'-'
                ∷ (take 4 (drop 12 hex)
                    ++ (b'-' ∷ (take 4 (drop 16 hex) ++ (b'-' ∷ drop 20 hex)))))))

-- `str(uuid.UUID(int=n))`
unfoldable pub uuid_str : ℕ → Bytes
unfolding hex_print
uuid_str n = dashed (hex_print 32 n [])
