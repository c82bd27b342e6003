-- ===== src/Uuid/RoundTrip.antt =====
-- What `str` of a UUID looks like, and that it is read back.
use mailu.Prelude.{
  ℕ, zero, suc, ◌+◌, ◌-◌, ◌*◌, ◌/◌, ◌%◌, ◌≤◌, ◌<◌, min, ◌≡◌, refl, sym, ap, ◌∙◌, subst, inl, inr,
  Bool, true, false, not, ◌&&◌, ◌||◌, none, some, [], ◌∷◌, ◌++◌, arith, leb, ◌==◌, if◌then◌else◌,
  Option-cases, length, take, drop, filter, all, length-append, take-append-drop, Bytes, codes,
  is_space,
}
use mailu.Uuid.{
  starts_with, remove_text, brace, lstrip_by, rstrip_by, no_dash, hex_digit, hex_digits,
  hex_unsigned, unsigned, int_hex, uuid, hex_char, hex_print, dashed, uuid_str, power, fits,
  in_range,
}

-- a lower-case digit, and a character of the text
abbrev pub is_hex : ℕ → Bool
is_hex c = (leb 48 c && leb c 57) || (leb 97 c && leb c 102)

abbrev pub is_uuid_char : ℕ → Bool
is_uuid_char c = is_hex c || c == b'-'

hex_char-IsHex : (d : ℕ) → d < 16 → is_hex (hex_char d) ≡ true
hex_char-IsHex d h = ground arith

hex_print-IsHex :
    (k n : ℕ) (acc : Bytes) → all is_hex acc ≡ true → all is_hex (hex_print k n acc) ≡ true
unfolding hex_print
hex_print-IsHex zero n acc h = h
hex_print-IsHex (suc k) n acc h =
    hex_print-IsHex k (n / 16) (hex_char (n % 16) ∷ acc) (ground (arith, hex_char-IsHex (n % 16)))

length-hex_print : (k n : ℕ) (acc : Bytes) → length (hex_print k n acc) ≡ k + length acc
unfolding hex_print
length-hex_print zero n acc = omega arith
length-hex_print (suc k) n acc =
    omega (arith, length-hex_print k (n / 16) (hex_char (n % 16) ∷ acc))

hex_digit-hex_char : (d : ℕ) → d < 16 → hex_digit (hex_char d) ≡ some d
hex_digit-hex_char d h = ground arith

hex_digits-step :
    (after : Bool) (v d : ℕ) (acc : Bytes)
    → d < 16
    → hex_digits after v (hex_char d ∷ acc) ≡ hex_digits true (v * 16 + d) acc
unfolding hex_digits
hex_digits-step after v d acc h = ground (arith, hex_digit-hex_char d h)

hex_digits-hex_print :
    (k n : ℕ) (after : Bool) (acc : Bytes)
    → n < power (suc k)
    → hex_digits after 0 (hex_print (suc k) n acc) ≡ hex_digits true n acc
unfolding hex_print
hex_digits-hex_print zero n after acc h =
    hex_digits-step after 0 (n % 16) acc (omega arith)
    ∙ ap (λ v. hex_digits true v acc) (omega arith)
hex_digits-hex_print (suc k) n after acc h =
    hex_digits-hex_print k (n / 16) after (hex_char (n % 16) ∷ acc) (omega arith)
    ∙ hex_digits-step true (n / 16) (n % 16) acc (omega arith)
    ∙ ap (λ v. hex_digits true v acc) (omega arith)

-- nothing of the text is taken away but the dashes
remove_text-hex :
    (pattern : Bytes) (cs : Bytes)
    → all is_uuid_char cs ≡ true
    → remove_text (b'u' ∷ pattern) 0 cs ≡ cs
unfolding remove_text starts_with
remove_text-hex pattern [] h = refl
remove_text-hex pattern (c ∷ cs) h = ground (arith, remove_text-hex pattern cs)

pub lstrip_by-hex :
    (p : ℕ → Bool) (cs : Bytes) → all (λ c. not (p c)) cs ≡ true → lstrip_by p cs ≡ cs
unfolding lstrip_by
lstrip_by-hex p [] h = refl
lstrip_by-hex p (c ∷ cs) h = ground arith

pub rstrip_by-hex :
    (p : ℕ → Bool) (cs : Bytes) → all (λ c. not (p c)) cs ≡ true → rstrip_by p cs ≡ cs
unfolding rstrip_by
rstrip_by-hex p [] h = refl
rstrip_by-hex p (c ∷ []) h = ground arith
rstrip_by-hex p (c ∷ d ∷ cs) h = ground (arith, rstrip_by-hex p (d ∷ cs))

pub filter-all : (cs : Bytes) → all is_hex cs ≡ true → filter no_dash cs ≡ cs
filter-all [] h = refl
filter-all (c ∷ cs) h = ground (arith, filter-all cs)

filter-append : (xs ys : Bytes) → filter no_dash (xs ++ ys) ≡ filter no_dash xs ++ filter no_dash ys
filter-append [] ys = refl
filter-append (x ∷ xs) ys = ground (arith, filter-append xs ys)

all-take : (p : ℕ → Bool) (n : ℕ) (xs : Bytes) → all p xs ≡ true → all p (take n xs) ≡ true
all-take p zero xs h = refl
all-take p (suc n) [] h = refl
all-take p (suc n) (x ∷ xs) h = ground (arith, all-take p n xs)

all-drop : (p : ℕ → Bool) (n : ℕ) (xs : Bytes) → all p xs ≡ true → all p (drop n xs) ≡ true
all-drop p zero xs h = h
all-drop p (suc n) [] h = refl
all-drop p (suc n) (x ∷ xs) h = all-drop p n xs (ground arith)

all-append : (p : ℕ → Bool) (xs ys : Bytes) → all p (xs ++ ys) ≡ (all p xs && all p ys)
all-append p [] ys = refl
all-append p (x ∷ xs) ys = ground (arith, all-append p xs ys)

pub all-imp :
    (p q : ℕ → Bool)
    → ((c : ℕ) → p c ≡ true → q c ≡ true)
    → (xs : Bytes) → all p xs ≡ true
    → all q xs ≡ true
all-imp p q h [] k = refl
all-imp p q h (x ∷ xs) k = ground (arith, h x, all-imp p q h xs)

-- one more group and its dash
filter-group :
    (xs ys : Bytes)
    → all is_hex xs ≡ true
    → filter no_dash (xs ++ b'-' ∷ ys) ≡ xs ++ filter no_dash ys
filter-group xs ys h =
    filter-append xs (b'-' ∷ ys) ∙ ap (λ r. r ++ filter no_dash ys) (filter-all xs h)

drop-nil : (m : ℕ) → drop {A = ℕ} m [] ≡ []
drop-nil zero = refl
drop-nil (suc m) = refl

drop-drop : (m n k : ℕ) (xs : Bytes) → k ≡ n + m → drop m (drop n xs) ≡ drop k xs
drop-drop m zero k xs e = ap (λ j. drop j xs) (omega arith)
drop-drop m (suc n) k [] e = drop-nil m ∙ sym (drop-nil k)
drop-drop m (suc n) zero (x ∷ xs) e = absurd (omega arith)
drop-drop m (suc n) (suc k) (x ∷ xs) e = drop-drop m n k xs (omega arith)

join-parts : (m n k : ℕ) (xs : Bytes) → k ≡ n + m → take m (drop n xs) ++ drop k xs ≡ drop n xs
join-parts m n k xs e =
    ap (λ r. take m (drop n xs) ++ r) (sym (drop-drop m n k xs e)) ∙ take-append-drop m (drop n xs)

filter-dashed : (hex : Bytes) → all is_hex hex ≡ true → filter no_dash (dashed hex) ≡ hex
filter-dashed hex h =
    let part : (m n : ℕ) → all is_hex (take m (drop n hex)) ≡ true =
      λ m n. all-take is_hex m (drop n hex) (all-drop is_hex n hex h) in
    filter-group (take 8 hex) _ (part 8 0)
    ∙ ap (λ r. take 8 hex ++ r)
        (filter-group (take 4 (drop 8 hex)) _ (part 4 8)
          ∙ ap (λ r. take 4 (drop 8 hex) ++ r)
              (filter-group (take 4 (drop 12 hex)) _ (part 4 12)
                ∙ ap (λ r. take 4 (drop 12 hex) ++ r)
                    (filter-group (take 4 (drop 16 hex)) _ (part 4 16)
                      ∙ ap (λ r. take 4 (drop 16 hex) ++ r)
                          (filter-all (drop 20 hex) (all-drop is_hex 20 hex h))
                      ∙ join-parts 4 16 20 hex (omega arith))
                ∙ join-parts 4 12 16 hex (omega arith))
          ∙ join-parts 4 8 12 hex (omega arith))
    ∙ join-parts 8 0 8 hex (omega arith)

all-dashed : (hex : Bytes) → all is_hex hex ≡ true → all is_uuid_char (dashed hex) ≡ true
all-dashed hex h =
    let part : (xs : Bytes) → all is_hex xs ≡ true → all is_uuid_char xs ≡ true =
      all-imp is_hex is_uuid_char (λ c e. ground arith) in
    let group : (m n : ℕ) (ys : Bytes)
        → all is_uuid_char ys ≡ true
        → all is_uuid_char (take m (drop n hex) ++ b'-' ∷ ys) ≡ true =
      λ m n ys k.
        all-append is_uuid_char (take m (drop n hex)) (b'-' ∷ ys)
        ∙ ground (
          arith,
          part (take m (drop n hex)) (all-take is_hex m (drop n hex) (all-drop is_hex n hex h)),
        ) in
    group 8 0 _
      (group 4 8 _ (group 4 12 _ (group 4 16 _ (part (drop 20 hex) (all-drop is_hex 20 hex h)))))

length-take : (n : ℕ) (xs : Bytes) → length (take n xs) ≡ min n (length xs)
length-take zero xs = omega arith
length-take (suc n) [] = omega arith
length-take (suc n) (x ∷ xs) = omega (arith, length-take n xs)

length-drop : (n : ℕ) (xs : Bytes) → length (drop n xs) ≡ length xs - n
length-drop zero xs = omega arith
length-drop (suc n) [] = omega arith
length-drop (suc n) (x ∷ xs) = omega (arith, length-drop n xs)

length-group :
    (m n : ℕ) (hex ys : Bytes)
    → n + m ≤ length hex
    → length (take m (drop n hex) ++ b'-' ∷ ys) ≡ m + suc (length ys)
length-group m n hex ys h = omega (
  arith,
  length-append (take m (drop n hex)) (b'-' ∷ ys),
  length-take m (drop n hex),
  length-drop n hex,
)

length-dashed : (hex : Bytes) → length hex ≡ 32 → length (dashed hex) ≡ 36
length-dashed hex h = omega (
  arith,
  length-group 8 0 hex (
      take 4 (drop 8 hex)
      ++ b'-' ∷ (take 4 (drop 12 hex) ++ b'-' ∷ (take 4 (drop 16 hex) ++ b'-' ∷ drop 20 hex))),
  length-group 4 8 hex
      (take 4 (drop 12 hex) ++ b'-' ∷ (take 4 (drop 16 hex) ++ b'-' ∷ drop 20 hex)),
  length-group 4 12 hex (take 4 (drop 16 hex) ++ b'-' ∷ drop 20 hex),
  length-group 4 16 hex (drop 20 hex),
  length-drop 20 hex,
)

-- the text of a number that fits
hex_unsigned-hex : (cs : Bytes) → all is_hex cs ≡ true → hex_unsigned cs ≡ hex_digits false 0 cs
unfolding hex_unsigned
hex_unsigned-hex [] h = refl
hex_unsigned-hex (c ∷ []) h = refl
hex_unsigned-hex (c ∷ d ∷ cs) h = ground arith

unsigned-hex : (cs : Bytes) → all is_hex cs ≡ true → unsigned cs ≡ cs
unsigned-hex [] h = refl
unsigned-hex (c ∷ cs) h = ground arith

int_hex-hex : (cs : Bytes) → all is_hex cs ≡ true → int_hex cs ≡ hex_digits false 0 cs
unfolding int_hex
int_hex-hex cs h =
    let clean : all (λ c. not (is_space c)) cs ≡ true =
      all-imp is_hex (λ c. not (is_space c)) (λ c e. ground arith) cs h in
    ap (λ r. hex_unsigned (unsigned r))
      (ap (rstrip_by is_space) (lstrip_by-hex is_space cs clean) ∙ rstrip_by-hex is_space cs clean)
    ∙ ap hex_unsigned (unsigned-hex cs h)
    ∙ hex_unsigned-hex cs h

-- the prefixes and braces are not there
pub stripped :
    (cs : Bytes)
    → all is_uuid_char cs ≡ true
    → rstrip_by brace
        (lstrip_by brace (remove_text (codes "uuid:") 0 (remove_text (codes "urn:") 0 cs)))
      ≡ cs
stripped cs h =
    let clean : all (λ c. not (brace c)) cs ≡ true =
      all-imp is_uuid_char (λ c. not (brace c)) (λ c e. ground arith) cs h in
    ap (λ r. rstrip_by brace (lstrip_by brace (remove_text (codes "uuid:") 0 r)))
      (remove_text-hex (codes "rn:") cs h)
    ∙ ap (λ r. rstrip_by brace (lstrip_by brace r)) (remove_text-hex (codes "uid:") cs h)
    ∙ ap (rstrip_by brace) (lstrip_by-hex brace cs clean)
    ∙ rstrip_by-hex brace cs clean

module _ (n : ℕ) where
  hex_of-IsHex : all is_hex (hex_print 32 n []) ≡ true
  hex_of-IsHex = hex_print-IsHex 32 n [] refl

  pub uuid_str-IsUuid : all is_uuid_char (uuid_str n) ≡ true
  unfolding uuid_str
  uuid_str-IsUuid = all-dashed (hex_print 32 n []) hex_of-IsHex

  pub length-uuid_str : length (uuid_str n) ≡ 36
  unfolding uuid_str
  length-uuid_str = length-dashed (hex_print 32 n []) (length-hex_print 32 n [])

  undashed : filter no_dash (uuid_str n) ≡ hex_print 32 n []
  unfolding uuid_str
  undashed = filter-dashed (hex_print 32 n []) hex_of-IsHex

  hex_value : hex_digits true n [] ≡ some n
  unfolding hex_digits
  hex_value = refl

  -- The text of a UUID is read back.
  pub uuid-uuid_str : fits n ≡ true → uuid (uuid_str n) ≡ some n
  unfolding uuid
  uuid-uuid_str h =
      let hex = hex_print 32 n [] in
      subst (λ r. (if length r == 32 then in_range (int_hex r) else none) ≡ some n)
        (sym (ap (filter no_dash) (stripped (uuid_str n) uuid_str-IsUuid) ∙ undashed))
        (ground (
          arith,
          length-hex_print 32 n [],
          int_hex-hex hex hex_of-IsHex,
          hex_digits-hex_print 31 n false [],
          hex_value,
        ))

-- A text that is read as a UUID gives a number in range.
pub uuid-fits : (text : Bytes) (n : ℕ) → uuid text ≡ some n → fits n ≡ true
unfolding uuid
uuid-fits text n h =
    let bare = remove_text (codes "uuid:") 0 (remove_text (codes "urn:") 0 text) in
    elim (Option-cases (int_hex (filter no_dash (rstrip_by brace (lstrip_by brace bare))))) [
      | inl bad ↦ absurd (ground arith)
      | inr (m, e) ↦ ground arith
    ]
