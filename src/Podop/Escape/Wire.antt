-- ===== src/Podop/Escape/Wire.antt =====
-- What an escaped field may hold: nothing that frames a reply.
use mailu.Prelude.{Bytes, ℕ, ◌≡◌, refl, Bool, true, not, ◌&&◌, [], ◌∷◌, ◌++◌, arith, ◌==◌, all}
use mailu.Podop.Escape.{tabescape}
use mailu.Podop.Escape.RoundTrip.{each, escape_byte, tabescape-eq-each}

-- neither TAB, which separates the fields, nor NUL, LF or CR, which end a line
abbrev pub framing_free : ℕ → Bool
framing_free x = not (x == b'\t') && not (x == b'\n') && not (x == b'\r') && not (x == 0)

all-append :
    (p : ℕ → Bool) (xs ys : Bytes) → all p xs ≡ true → all p ys ≡ true → all p (xs ++ ys) ≡ true
all-append p [] ys h k = k
all-append p (x ∷ xs) ys h k = ground (arith, all-append p xs ys)

escape_byte-framing_free : (x : ℕ) → all framing_free (escape_byte x) ≡ true
escape_byte-framing_free x = ground arith

each-framing_free : (xs : Bytes) → all framing_free (each escape_byte xs) ≡ true
unfolding each
each-framing_free [] = refl
each-framing_free (x ∷ xs) =
    all-append framing_free (escape_byte x) (each escape_byte xs) (escape_byte-framing_free x)
      (each-framing_free xs)

-- An escaped field holds no TAB, LF, CR or NUL.
pub tabescape-framing_free : (xs : Bytes) → all framing_free (tabescape xs) ≡ true
tabescape-framing_free xs = rw (tabescape-eq-each xs) (each-framing_free xs)
