-- ===== src/Podop/Escape.antt =====
-- core/base/libs/podop/podop/dovecot.py: the escaping of a reply's fields, `tabescape` and
-- `tabunescape`, as the chains of `bytes.replace` that the source makes.
pub mod RoundTrip
pub mod Wire
mod Tests
use mailu.Prelude.{ℕ, Bytes, [], ◌∷◌, ◌++◌, ◌==◌, ◌&&◌, if◌then◌else◌}

-- `bytes.replace(old, new)` for an `old` of one byte
replace_byte : ℕ → Bytes → Bytes → Bytes
replace_byte old new [] = []
replace_byte old new (x ∷ xs) =
    let rest = replace_byte old new xs in if x == old then new ++ rest else x ∷ rest

-- `bytes.replace(old, new)` for an `old` of two bytes and a `new` of one: the leftmost match is
-- taken, and the scan goes on behind it
replace_pair : ℕ → ℕ → ℕ → Bytes → Bytes
replace_pair a b new [] = []
replace_pair a b new (x ∷ []) = x ∷ []
replace_pair a b new (x ∷ y ∷ xs) =
    let matched = new ∷ replace_pair a b new xs in
    let moved = x ∷ replace_pair a b new (y ∷ xs) in if x == a && y == b then matched else moved

unfoldable pub tabescape : Bytes → Bytes
unfolding replace_byte
tabescape unescaped = replace_byte b'\r' (1 ∷ b'r' ∷ []) (
    replace_byte b'\n' (1 ∷ b'n' ∷ []) (
      replace_byte b'\t' (1 ∷ b't' ∷ [])
        (replace_byte 0 (1 ∷ b'0' ∷ []) (replace_byte 1 (1 ∷ b'1' ∷ []) unescaped))))

unfoldable pub tabunescape : Bytes → Bytes
unfolding replace_pair
tabunescape escaped = replace_pair 1 b'1' 1 (
    replace_pair 1 b'0' 0
      (replace_pair 1 b't' b'\t' (replace_pair 1 b'n' b'\n' (replace_pair 1 b'r' b'\r' escaped))))
