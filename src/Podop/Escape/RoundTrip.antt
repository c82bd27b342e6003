-- ===== src/Podop/Escape/RoundTrip.antt =====
-- Unescaping undoes escaping, stage by stage: both are maps of single bytes.
use mailu.Prelude.{
  Bytes, ℕ, ◌≡◌, refl, ap, ◌∙◌, [], ◌∷◌, ◌++◌, append_assoc, ◌==◌, if◌then◌else◌, false, arith,
}
use mailu.Podop.Escape.{replace_byte, replace_pair, tabescape, tabunescape}

-- every byte on its own
unfoldable pub each : (ℕ → Bytes) → Bytes → Bytes
each f [] = []
each f (x ∷ xs) = f x ++ each f xs

abbrev esc1 : ℕ → Bytes
esc1 x = if x == 1 then 1 ∷ b'1' ∷ [] else x ∷ []

abbrev esc0 : ℕ → Bytes
esc0 x = if x == 0 then 1 ∷ b'0' ∷ [] else esc1 x

abbrev esct : ℕ → Bytes
esct x = if x == b'\t' then 1 ∷ b't' ∷ [] else esc0 x

abbrev escn : ℕ → Bytes
escn x = if x == b'\n' then 1 ∷ b'n' ∷ [] else esct x

abbrev pub escape_byte : ℕ → Bytes
escape_byte x = if x == b'\r' then 1 ∷ b'r' ∷ [] else escn x

replace_byte-append :
    (old : ℕ) (new xs ys : Bytes)
    → replace_byte old new (xs ++ ys) ≡ replace_byte old new xs ++ replace_byte old new ys
unfolding replace_byte
replace_byte-append old new [] ys = refl
replace_byte-append old new (x ∷ xs) ys = ground (
  arith,
  replace_byte-append old new xs ys,
  append_assoc new (replace_byte old new xs) (replace_byte old new ys),
)

-- Escaping distributes over concatenation.
pub tabescape-append : (xs ys : Bytes) → tabescape (xs ++ ys) ≡ tabescape xs ++ tabescape ys
unfolding tabescape
tabescape-append xs ys = simp replace_byte-append

tabescape-byte : (x : ℕ) → tabescape (x ∷ []) ≡ escape_byte x
unfolding tabescape
tabescape-byte x = ground arith

-- Escaping works byte by byte.
pub tabescape-eq-each : (xs : Bytes) → tabescape xs ≡ each escape_byte xs
unfolding each
tabescape-eq-each [] = unfold tabescape in refl
tabescape-eq-each (x ∷ xs) =
    tabescape-append (x ∷ []) xs ∙ rw (tabescape-byte x, tabescape-eq-each xs) refl

replace_pair-skip :
    (b new d : ℕ) (r : Bytes)
    → (d == 1) ≡ false
    → replace_pair 1 b new (d ∷ r) ≡ d ∷ replace_pair 1 b new r
unfolding replace_pair
replace_pair-skip b new d [] h = refl
replace_pair-skip b new d (y ∷ r) h = rw h

-- one stage takes the escapes `f` to the escapes `g`
module _ (b new : ℕ) (f g : ℕ → Bytes)
    (stage : (x : ℕ) (r : Bytes)
      → replace_pair 1 b new (f x ++ r) ≡ g x ++ replace_pair 1 b new r) where
  replace_pair-each : (xs : Bytes) → replace_pair 1 b new (each f xs) ≡ each g xs
  unfolding each
  replace_pair-each [] = unfold replace_pair in refl
  replace_pair-each (x ∷ xs) = stage x (each f xs) ∙ ap (λ r. g x ++ r) (replace_pair-each xs)

stage_r :
    (x : ℕ) (r : Bytes)
    → replace_pair 1 b'r' b'\r' (escape_byte x ++ r) ≡ escn x ++ replace_pair 1 b'r' b'\r' r
unfolding replace_pair
stage_r x r = ground (
  arith,
  replace_pair-skip b'r' b'\r' b'1' r refl,
  replace_pair-skip b'r' b'\r' b'0' r refl,
  replace_pair-skip b'r' b'\r' b't' r refl,
  replace_pair-skip b'r' b'\r' b'n' r refl,
  replace_pair-skip b'r' b'\r' x r,
)

stage_n :
    (x : ℕ) (r : Bytes)
    → replace_pair 1 b'n' b'\n' (escn x ++ r) ≡ esct x ++ replace_pair 1 b'n' b'\n' r
unfolding replace_pair
stage_n x r = ground (
  arith,
  replace_pair-skip b'n' b'\n' b'1' r refl,
  replace_pair-skip b'n' b'\n' b'0' r refl,
  replace_pair-skip b'n' b'\n' b't' r refl,
  replace_pair-skip b'n' b'\n' x r,
)

stage_t :
    (x : ℕ) (r : Bytes)
    → replace_pair 1 b't' b'\t' (esct x ++ r) ≡ esc0 x ++ replace_pair 1 b't' b'\t' r
unfolding replace_pair
stage_t x r = ground (
  arith,
  replace_pair-skip b't' b'\t' b'1' r refl,
  replace_pair-skip b't' b'\t' b'0' r refl,
  replace_pair-skip b't' b'\t' x r,
)

stage_0 :
    (x : ℕ) (r : Bytes) → replace_pair 1 b'0' 0 (esc0 x ++ r) ≡ esc1 x ++ replace_pair 1 b'0' 0 r
unfolding replace_pair
stage_0 x r = ground (arith, replace_pair-skip b'0' 0 b'1' r refl, replace_pair-skip b'0' 0 x r)

stage_1 :
    (x : ℕ) (r : Bytes) → replace_pair 1 b'1' 1 (esc1 x ++ r) ≡ (x ∷ []) ++ replace_pair 1 b'1' 1 r
unfolding replace_pair
stage_1 x r = ground (arith, replace_pair-skip b'1' 1 x r)

each-single : (xs : Bytes) → each (λ y. y ∷ []) xs ≡ xs
unfolding each
each-single [] = refl
each-single (x ∷ xs) = ap (λ r. x ∷ r) (each-single xs)

-- Unescaping what was escaped gives the bytes back, whatever they are.
pub tabunescape-tabescape : (xs : Bytes) → tabunescape (tabescape xs) ≡ xs
unfolding tabunescape
tabunescape-tabescape xs =
    rw
      (
        tabescape-eq-each xs,
        replace_pair-each b'r' b'\r' escape_byte escn stage_r xs,
        replace_pair-each b'n' b'\n' escn esct stage_n xs,
        replace_pair-each b't' b'\t' esct esc0 stage_t xs,
        replace_pair-each b'0' 0 esc0 esc1 stage_0 xs,
        replace_pair-each b'1' 1 esc1 (λ y. y ∷ []) stage_1 xs,
      )
      (each-single xs)
