-- ===== src/Podop/Netstring.antt =====
-- `NetstringProtocol` of core/base/libs/podop/podop/postfix.py: the buffer that puts the netstrings of
-- Postfix together.
pub mod Buffer
mod Tests
use mailu.Prelude.{
  ℕ, zero, suc, ◌+◌, ◌-◌, Bool, false, Option, none, some, List, [], ◌∷◌, ◌++◌, ltb, ◌==◌,
  if◌then◌else◌, length, take, drop, all, Bytes, decimal, is_digit, read_digits,
}

abbrev pub base_buffer : ℕ
base_buffer = 1024

-- the fields of the class; a separator that is not found is none
pub record Netstring : Type 0 where
  pub expected : Option ℕ
  pub separator : Option ℕ
  pub index : ℕ
  pub buffer : Bytes

-- `bytearray(n)`
unfoldable pub zeros : ℕ → Bytes
zeros zero = []
zeros (suc n) = 0 ∷ zeros n

unfoldable pub init_buffer : Netstring
init_buffer = record { expected = none; separator = none; index = 0; buffer = zeros base_buffer }

abbrev pub next : Option ℕ → Option ℕ
next none = none
next (some n) = some (suc n)

-- `find`
unfoldable pub find : ℕ → Bytes → Option ℕ
find d [] = none
find d (x ∷ xs) = let rest = find d xs in if x == d then some 0 else next rest

-- `self.buffer[self.index:new_index] = data`
unfoldable pub fill : Bytes → Netstring → Netstring
fill data_ s = record s {
  index = s.index + length data_;
  buffer = take s.index s.buffer ++ data_ ++ drop (s.index + length data_) s.buffer;
}

unfoldable pub is_number : Bytes → Bool
is_number [] = false
is_number (c ∷ cs) = all is_digit (c ∷ cs)

-- the length at the beginning, unless it is known
unfoldable pub detect : Netstring → Netstring
detect s = elim s.expected [
  | some n ↦ s
  | none ↦ elim (find b':' s.buffer) [
    | none ↦ record s { separator = none }
    | some k ↦ record s {
      separator = some k;
      expected = if is_number (take k s.buffer) then read_digits 0 (take k s.buffer) else none;
    }
  ]
]

-- the place behind the separator; one that is not found is -1
abbrev behind : Option ℕ → ℕ
behind none = 0
behind (some k) = suc k

-- the netstring, when it is complete
unfoldable pub deliver : Netstring → Netstring × Option Bytes
deliver s = elim s.expected [
  | none ↦ (s, none)
  | some n ↦
      if s.index == n + 1 + behind s.separator
      then (
        init_buffer,
        some (take (s.index - 1 - behind s.separator) (drop (behind s.separator) s.buffer)),
      )
      else (s, none)
]

-- none is an exception: where the data do not fit, the buffer is full or cannot be grown, since
-- `append` takes a number
unfoldable pub data_received : Bytes → Netstring → Option (Netstring × Option Bytes)
data_received data_ s =
    if ltb (length s.buffer) (length data_ + s.index)
    then none
    else some (deliver (detect (fill data_ s)))

unfoldable pub send_string : Bytes → Bytes
send_string string = decimal (length string) ++ b':' ∷ (string ++ b',' ∷ [])

abbrev add_string : Option Bytes → List Bytes → List Bytes
add_string none strings = strings
add_string (some string) strings = string ∷ strings

-- the strings that a sequence of reads delivers
unfoldable pub receive : List Bytes → Netstring → Option (Netstring × List Bytes)
receive [] s = some (s, [])
receive (data_ ∷ more) s = elim (data_received data_ s) [
  | none ↦ none
  | some (s', got) ↦ elim (receive more s') [
    | none ↦ none
    | some (last, strings) ↦ some (last, add_string got strings)
  ]
]
