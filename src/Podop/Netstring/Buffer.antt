-- ===== src/Podop/Netstring/Buffer.antt =====
-- The buffer of a netstring while it fills up: what is found in it, and what is cut out of it.
pub mod Chunks
use mailu.Prelude.{
  ℕ, zero, suc, ◌+◌, ◌-◌, ◌≤◌, ◌<◌, ◌≡◌, refl, sym, ap, ◌∙◌, ◌≢◌, ◌⊎◌, inl, inr, true, Option, none,
  some, [], ◌∷◌, ◌++◌, append_assoc, arith, length, take, drop, all, length-append, Bytes, is_digit,
  read_digits,
}
use mailu.Podop.Netstring.{
  base_buffer, Netstring, zeros, init_buffer, find, fill, is_number, detect, deliver,
}

length-zeros : (n : ℕ) → length (zeros n) ≡ n
unfolding zeros
length-zeros zero = refl
length-zeros (suc n) = ap (λ k. suc k) (length-zeros n)

drop-zeros : (m n k : ℕ) → k ≡ n - m → drop m (zeros n) ≡ zeros k
unfolding zeros
drop-zeros zero n k e = let same : n ≡ k = omega arith in ap zeros same
drop-zeros (suc m) zero k e = let same : 0 ≡ k = omega arith in ap zeros same
drop-zeros (suc m) (suc n) k e = drop-zeros m n k (omega arith)

take-length : (xs ys : Bytes) → take (length xs) (xs ++ ys) ≡ xs
take-length [] ys = refl
take-length (x ∷ xs) ys = ap (λ r. x ∷ r) (take-length xs ys)

drop-length : (xs ys : Bytes) (m n : ℕ) → m ≡ length xs + n → drop m (xs ++ ys) ≡ drop n ys
drop-length [] ys m n e = ap (λ k. drop k ys) (omega arith)
drop-length (x ∷ xs) ys zero n e = absurd (omega arith)
drop-length (x ∷ xs) ys (suc m) n e = drop-length xs ys m n (omega arith)

find-zeros : (n : ℕ) → find b':' (zeros n) ≡ none
unfolding find zeros
find-zeros zero = refl
find-zeros (suc n) = rw (find-zeros n)

find-digits :
    (xs ys : Bytes) → all is_digit xs ≡ true → find b':' ys ≡ none → find b':' (xs ++ ys) ≡ none
unfolding find is_digit
find-digits [] ys h k = k
find-digits (x ∷ xs) ys h k = ground (arith, find-digits xs ys)

find-colon :
    (xs ys : Bytes) → all is_digit xs ≡ true → find b':' (xs ++ b':' ∷ ys) ≡ some (length xs)
unfolding find is_digit
find-colon [] ys h = refl
find-colon (x ∷ xs) ys h = ground (arith, find-colon xs ys)

prefix_cases :
    (digits t x rest : Bytes)
    → x ++ rest ≡ digits ++ b':' ∷ t
    → ((e : Bytes) × (x ++ e ≡ digits)) ⊎ ((q : Bytes) × (x ≡ digits ++ b':' ∷ q) × (q ++ rest ≡ t))
prefix_cases digits t [] rest h = inl (digits, refl)
prefix_cases [] t (x ∷ xs) rest h = inr (xs, ground arith, ground arith)
prefix_cases (d ∷ digits) t (x ∷ xs) rest h = elim (prefix_cases digits t xs rest (ground arith)) [
  | inl (e, same) ↦ inl (e, ground arith)
  | inr (q, same, more) ↦ inr (q, ground arith, more)
]

abbrev pad : Bytes → Bytes
pad x = x ++ zeros (base_buffer - length x)

-- the state when `x` has come in
abbrev state : Option ℕ → Option ℕ → Bytes → Netstring
state expected separator x = record {
  expected = expected;
  separator = separator;
  index = length x;
  buffer = pad x;
}

length-pad : (x : Bytes) → length x ≤ base_buffer → length (pad x) ≡ base_buffer
length-pad x h =
    omega (
      arith,
      length-append x (zeros (base_buffer - length x)),
      length-zeros (base_buffer - length x),
    )

fill-pad :
    (x y : Bytes)
    → take (length x) (pad x) ++ y ++ drop (length x + length y) (pad x) ≡ pad (x ++ y)
fill-pad x y =
    ap (λ l. l ++ y ++ drop (length x + length y) (pad x))
      (take-length x (zeros (base_buffer - length x)))
    ∙ ap (λ l. x ++ y ++ l)
        (drop-length x (zeros (base_buffer - length x)) (length x + length y) (length y) refl
          ∙ drop-zeros (length y) (base_buffer - length x) (base_buffer - length (x ++ y))
              (omega (arith, length-append x y)))

fill-state : (e sp : Option ℕ) (x y : Bytes) → fill y (state e sp x) ≡ state e sp (x ++ y)
unfolding fill
fill-state e sp x y =
    ap
      (λ i. record {
        expected = e;
        separator = sp;
        index = i;
        buffer = take (length x) (pad x) ++ y ++ drop (length x + length y) (pad x);
      })
      (sym (length-append x y))
    ∙ ap (λ b. record { expected = e; separator = sp; index = length (x ++ y); buffer = b })
        (fill-pad x y)

detect-waiting :
    (x : Bytes) → all is_digit x ≡ true → detect (state none none x) ≡ state none none x
unfolding detect
detect-waiting x h =
    ground (
      arith,
      find-digits x (zeros (base_buffer - length x)) h (find-zeros (base_buffer - length x)),
    )

detect-known :
    (n : ℕ) (sp : Option ℕ) (x : Bytes) → detect (state (some n) sp x) ≡ state (some n) sp x
unfolding detect
detect-known n sp x = refl

is_number-digits : (d : Bytes) → all is_digit d ≡ true → 0 < length d → is_number d ≡ true
unfolding is_number
is_number-digits [] h p = absurd (omega arith)
is_number-digits (c ∷ cs) h p = h

detect-found :
    (n k : ℕ) (s : Netstring)
    → s.expected ≡ none
    → find b':' s.buffer ≡ some k
    → is_number (take k s.buffer) ≡ true
    → read_digits 0 (take k s.buffer) ≡ some n
    → detect s ≡ record s { expected = some n; separator = some k }
unfolding detect
detect-found n k s e f g h = ground arith

-- the separator and the length, in a buffer that begins with them
detect-colon :
    (d q : Bytes) (n : ℕ)
    → all is_digit d ≡ true
    → 0 < length d
    → read_digits 0 d ≡ some n
    → detect (state none none (d ++ b':' ∷ q)) ≡ state (some n) (some (length d)) (d ++ b':' ∷ q)
detect-colon d q n h p r =
    let whole : pad (d ++ b':' ∷ q)
        ≡ d ++ b':' ∷ (q ++ zeros (base_buffer - length (d ++ b':' ∷ q))) =
      append_assoc d (b':' ∷ q) (zeros (base_buffer - length (d ++ b':' ∷ q))) in
    let taken = ap (take (length d)) whole ∙ take-length d _ in
    detect-found n (length d) (state none none (d ++ b':' ∷ q)) refl
      (ap (find b':') whole ∙ find-colon d _ h) (ap is_number taken ∙ is_number-digits d h p)
      (ap (read_digits 0) taken ∙ r)

deliver-waiting : (sp : Option ℕ) (x : Bytes) → deliver (state none sp x) ≡ (state none sp x, none)
unfolding deliver
deliver-waiting sp x = refl

deliver-partial :
    (n k : ℕ) (x : Bytes)
    → length x ≢ n + 2 + k
    → deliver (state (some n) (some k) x) ≡ (state (some n) (some k) x, none)
unfolding deliver
deliver-partial n k x h = ground arith

frame : Bytes → Bytes → Bytes
frame d p = d ++ b':' ∷ (p ++ b',' ∷ [])

length-frame : (d p : Bytes) → length (frame d p) ≡ length p + 1 + suc (length d)
unfolding frame
length-frame d p =
    omega (arith, length-append d (b':' ∷ (p ++ b',' ∷ [])), length-append p (b',' ∷ []))

-- the content, cut out of the buffer
cut_out :
    (d p : Bytes) (m : ℕ) → m ≡ length p → take m (drop (suc (length d)) (pad (frame d p))) ≡ p
unfolding frame
cut_out d p m e =
    let zs = zeros (base_buffer - length (d ++ b':' ∷ (p ++ b',' ∷ []))) in
    ap (λ l. take m (drop (suc (length d)) l)) (append_assoc d (b':' ∷ (p ++ b',' ∷ [])) zs)
    ∙ ap (take m) (drop-length d (b':' ∷ ((p ++ b',' ∷ []) ++ zs)) (suc (length d)) 1 (omega arith))
    ∙ ap (take m) (append_assoc p (b',' ∷ []) zs)
    ∙ ap (λ k. take k (p ++ b',' ∷ zs)) e
    ∙ take-length p (b',' ∷ zs)

deliver-found :
    (n k : ℕ) (x p : Bytes)
    → length x ≡ n + 1 + suc k
    → take (length x - 1 - suc k) (drop (suc k) (pad x)) ≡ p
    → deliver (state (some n) (some k) x) ≡ (init_buffer, some p)
unfolding deliver
deliver-found n k x p h e = ground arith

deliver-whole :
    (d p : Bytes)
    → deliver (state (some (length p)) (some (length d)) (frame d p)) ≡ (init_buffer, some p)
deliver-whole d p =
    deliver-found (length p) (length d) (frame d p) p (length-frame d p)
      (cut_out d p _ (omega (arith, length-frame d p)))
