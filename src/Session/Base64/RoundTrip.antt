-- ===== src/Session/Base64/RoundTrip.antt =====
-- Decoding undoes encoding, and how long an encoding is.
use mailu.Prelude.{
  ℕ, ◌+◌, ◌-◌, ◌*◌, ◌/◌, ◌%◌, ◌≤◌, ◌<◌, ◌≡◌, refl, sym, subst, Bool, true, false, Option, some, [],
  ◌∷◌, ◌++◌, arith, ltb, ◌==◌, length, all, Bytes,
}
use mailu.Session.Base64.{
  char, sextet, encode, stop, go_on, digit, turn, decode_from, equals, decode, add_byte,
}

sextet-char : (n : ℕ) → n < 64 → sextet (char n) ≡ some n
sextet-char n h = ground arith

char-ne : (n : ℕ) → n < 64 → (char n == b'=') ≡ false
char-ne n h = ground arith

turn-char : (n quad left pads : ℕ) → n < 64 → turn (char n) quad left pads ≡ digit n quad left
unfolding turn
turn-char n quad left pads h = rw (char-ne n h, sextet-char n h) refl

-- bytes, and not other numbers
abbrev pub is_byte : ℕ → Bool
is_byte b = ltb b 256

length-encode :
    (a b c : ℕ) (rest : Bytes) → length (encode (a ∷ b ∷ c ∷ rest)) % 4 ≡ length (encode rest) % 4
unfolding encode
length-encode a b c rest = omega arith

-- one character at each place of a group
module _ (n left pads : ℕ) (cs : Bytes) (h : n < 64) where
  char_0 :
      (bs : Bytes)
      → decode_from 1 n 0 cs ≡ some bs
      → decode_from 0 left pads (char n ∷ cs) ≡ some bs
  unfolding decode_from
  char_0 bs e =
      subst
        (λ t.
          elim t as (λ x. Option Bytes) [
            | stop ↦ some []
            | go_on out q l p ↦ add_byte out (decode_from q l p cs)
          ]
          ≡ some bs)
        (sym (turn-char n 0 left pads h)) (rw e refl)

  char_1 :
      (b : ℕ) (bs : Bytes)
      → left * 4 + n / 16 ≡ b
      → decode_from 2 (n % 16) 0 cs ≡ some bs
      → decode_from 1 left pads (char n ∷ cs) ≡ some (b ∷ bs)
  unfolding decode_from
  char_1 b bs k e = ground (arith, turn-char n 1 left pads h)

  char_2 :
      (b : ℕ) (bs : Bytes)
      → left * 16 + n / 4 ≡ b
      → decode_from 3 (n % 4) 0 cs ≡ some bs
      → decode_from 2 left pads (char n ∷ cs) ≡ some (b ∷ bs)
  unfolding decode_from
  char_2 b bs k e = ground (arith, turn-char n 2 left pads h)

  char_3 :
      (b : ℕ) (bs : Bytes)
      → left * 64 + n ≡ b
      → decode_from 0 0 0 cs ≡ some bs
      → decode_from 3 left pads (char n ∷ cs) ≡ some (b ∷ bs)
  unfolding decode_from
  char_3 b bs k e = ground (arith, turn-char n 3 left pads h)

padding_2 : (left : ℕ) → decode_from 2 left 0 (b'=' ∷ b'=' ∷ []) ≡ some []
unfolding decode_from turn
padding_2 left = refl

padding_3 : (left : ℕ) → decode_from 3 left 0 (b'=' ∷ []) ≡ some []
unfolding decode_from turn
padding_3 left = refl

decode-encode_from :
    (value : Bytes) (pads : ℕ)
    → all is_byte value ≡ true
    → decode_from 0 0 pads (encode value ++ equals (4 - length (encode value) % 4)) ≡ some value
unfolding encode
decode-encode_from [] pads h = unfold decode_from in refl
decode-encode_from (a ∷ []) pads h =
    char_0 (a / 4) 0 pads _ (ground arith) (a ∷ [])
      (char_1 (a % 4 * 16) (a / 4) 0 _ (omega arith) a [] (ground arith) (padding_2 _))
decode-encode_from (a ∷ b ∷ []) pads h = char_0 (a / 4) 0 pads _ (ground arith) (a ∷ b ∷ []) (
    char_1 (a % 4 * 16 + b / 16) (a / 4) 0 _ (ground arith) a (b ∷ []) (ground arith)
      (char_2 (b % 16 * 4) _ 0 _ (omega arith) b [] (ground arith) (padding_3 _)))
decode-encode_from (a ∷ b ∷ c ∷ rest) pads h =
    char_0 (a / 4) 0 pads _ (ground arith) (a ∷ b ∷ c ∷ rest) (
      char_1 (a % 4 * 16 + b / 16) (a / 4) 0 _ (ground arith) a (b ∷ c ∷ rest) (ground arith) (
        char_2 (b % 16 * 4 + c / 64) _ 0 _ (ground arith) b (c ∷ rest) (ground arith) (
          char_3 (c % 64) _ 0 _ (omega arith) c rest (ground arith) (
            subst (λ k. decode_from 0 0 0 (encode rest ++ equals (4 - k)) ≡ some rest)
              (sym (length-encode a b c rest)) (decode-encode_from rest 0 (ground arith))))))

-- What was encoded is decoded to the same bytes.
pub decode-encode : (value : Bytes) → all is_byte value ≡ true → decode (encode value) ≡ some value
unfolding decode
decode-encode value h = decode-encode_from value 0 h

-- An encoding is as long as that of any other text of the same length.
pub length-encode_same :
    (xs ys : Bytes) → length xs ≡ length ys → length (encode xs) ≡ length (encode ys)
unfolding encode
length-encode_same [] [] h = refl
length-encode_same (x ∷ []) (y ∷ []) h = refl
length-encode_same (x ∷ x' ∷ []) (y ∷ y' ∷ []) h = refl
length-encode_same (x ∷ x' ∷ x'' ∷ xs) (y ∷ y' ∷ y'' ∷ ys) h =
    omega (arith, length-encode_same xs ys)
length-encode_same [] (y ∷ ys) h = absurd (omega arith)
length-encode_same (x ∷ xs) [] h = absurd (omega arith)
length-encode_same (x ∷ []) (y ∷ y' ∷ ys) h = absurd (omega arith)
length-encode_same (x ∷ x' ∷ xs) (y ∷ []) h = absurd (omega arith)
length-encode_same (x ∷ x' ∷ []) (y ∷ y' ∷ y'' ∷ ys) h = absurd (omega arith)
length-encode_same (x ∷ x' ∷ x'' ∷ xs) (y ∷ y' ∷ []) h = absurd (omega arith)

pub length-encode_short : (xs : Bytes) → length xs ≤ 4 → length (encode xs) ≤ 6
unfolding encode
length-encode_short [] h = omega arith
length-encode_short (a ∷ []) h = omega arith
length-encode_short (a ∷ b ∷ []) h = omega arith
length-encode_short (a ∷ b ∷ c ∷ []) h = omega arith
length-encode_short (a ∷ b ∷ c ∷ d ∷ []) h = omega arith
length-encode_short (a ∷ b ∷ c ∷ d ∷ e ∷ xs) h = absurd (omega arith)
