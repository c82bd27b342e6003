-- ===== src/Session/Keys.antt =====
-- The key of a session is read back, while the session lives.
use mailu.Prelude.{
  ℕ, zero, suc, ◌+◌, ◌*◌, ◌/◌, ◌%◌, ◌≤◌, ◌<◌, ◌≡◌, refl, sym, ap, ◌∙◌, subst, true, ◌&&◌, some, [],
  ◌∷◌, ◌++◌, append_assoc, arith, leb, length, take, drop, all, length-append, Bytes,
}
use mailu.Session.Base64.{encode, decode}
use mailu.Session.Base64.RoundTrip.{decode-encode, length-encode_same, length-encode_short, is_byte}
use mailu.Session.{
  Config, time_bytes, zero_bytes, uid_b64, key_min, key_max, gen_uid, gen_sid, bytes_of,
  gen_created, from_bytes, Parts, is_current, parse_parts, parse_key,
}

length-zero_bytes : (n : ℕ) → length (zero_bytes n) ≡ n
unfolding zero_bytes
length-zero_bytes zero = refl
length-zero_bytes (suc n) = ap (λ k. suc k) (length-zero_bytes n)

-- what `n` bytes hold
abbrev pub power : ℕ → ℕ
power zero = 1
power (suc n) = 256 * power n

-- a number is read off its bytes
from_bytes-bytes_of :
    (fuel n : ℕ) (acc : Bytes)
    → n < power fuel
    → from_bytes 0 (bytes_of fuel n acc) ≡ from_bytes n acc
unfolding from_bytes bytes_of
from_bytes-bytes_of zero n acc h = ap (λ m. from_bytes m acc) (omega arith)
from_bytes-bytes_of (suc fuel) n acc h =
    ground (arith, from_bytes-bytes_of fuel (n / 256) ((n % 256) ∷ acc))

length-bytes_of :
    (fuel n m : ℕ) (acc : Bytes) → n < power m → length (bytes_of fuel n acc) ≤ m + length acc
unfolding bytes_of
length-bytes_of zero n m acc h = omega arith
length-bytes_of (suc fuel) n zero acc h = ground arith
length-bytes_of (suc fuel) n (suc m) acc h =
    ground (arith, length-bytes_of fuel (n / 256) m ((n % 256) ∷ acc))

bytes_of-IsByte :
    (fuel n : ℕ) (acc : Bytes) → all is_byte acc ≡ true → all is_byte (bytes_of fuel n acc) ≡ true
unfolding bytes_of
bytes_of-IsByte zero n acc h = h
bytes_of-IsByte (suc fuel) n acc h =
    ground (arith, bytes_of-IsByte fuel (n / 256) ((n % 256) ∷ acc))

take-length : (xs ys : Bytes) → take (length xs) (xs ++ ys) ≡ xs
take-length [] ys = refl
take-length (x ∷ xs) ys = ap (λ r. x ∷ r) (take-length xs ys)

drop-length : (xs ys : Bytes) → drop (length xs) (xs ++ ys) ≡ ys
drop-length [] ys = refl
drop-length (x ∷ xs) ys = drop-length xs ys

-- the parts of a key that the server has made: from a user, random bits and a time
pub record IsGenerated (config : Config) (created : ℕ) (parts : Parts) : Type 0 where
  pub user : Bytes
  pub random : Bytes
  pub uid_of : parts.uid ≡ gen_uid config user
  pub sid_of : parts.sid ≡ gen_sid random
  pub crt_of : parts.crt ≡ gen_created created
  pub uid_length : length (config.uid_hash user) ≡ config.uid_len
  pub uid_bytes : all is_byte (config.uid_hash user) ≡ true
  pub sid_length : length random ≡ config.sid_len
  pub sid_bytes : all is_byte random ≡ true
  pub fits : created < power time_bytes

abbrev pub key_of : Parts → Bytes
key_of parts = parts.uid ++ (parts.sid ++ parts.crt)

module _ (config : Config) (now created : ℕ) (parts : Parts)
    (h : IsGenerated config created parts) where
  decode-uid : decode parts.uid ≡ some (config.uid_hash h.user)
  unfolding gen_uid
  decode-uid = ap decode h.uid_of ∙ decode-encode (config.uid_hash h.user) h.uid_bytes

  decode-sid : decode parts.sid ≡ some h.random
  unfolding gen_sid
  decode-sid = ap decode h.sid_of ∙ decode-encode h.random h.sid_bytes

  decode-crt : decode parts.crt ≡ some (bytes_of 8 created [])
  unfolding gen_created
  decode-crt =
      ap decode h.crt_of ∙ decode-encode (bytes_of 8 created []) (bytes_of-IsByte 8 created [] refl)

  created-bytes : from_bytes 0 (bytes_of 8 created []) ≡ created
  unfolding from_bytes
  created-bytes = from_bytes-bytes_of 8 created [] (let k = h.fits in omega arith)

  parse_parts-generated :
      is_current config now created ≡ true → parse_parts config now parts ≡ some parts
  unfolding parse_parts
  parse_parts-generated c = ground (arith, decode-uid, decode-sid, decode-crt, created-bytes)

  length-uid : length parts.uid ≡ uid_b64 config
  unfolding uid_b64 gen_uid
  length-uid =
      ap length h.uid_of
      ∙ length-encode_same (config.uid_hash h.user) (zero_bytes config.uid_len)
          (h.uid_length ∙ sym (length-zero_bytes config.uid_len))

  length-sid : length parts.sid ≡ length (encode (zero_bytes config.sid_len))
  unfolding gen_sid
  length-sid =
      ap length h.sid_of
      ∙ length-encode_same h.random (zero_bytes config.sid_len)
          (h.sid_length ∙ sym (length-zero_bytes config.sid_len))

  length-head : length (parts.uid ++ parts.sid) ≡ key_min config
  unfolding key_min
  length-head = omega (arith, length-append parts.uid parts.sid, length-uid, length-sid)

  length-crt : length parts.crt ≤ 6
  unfolding gen_created
  length-crt =
      subst (λ c. length c ≤ 6) (sym h.crt_of)
        (length-encode_short (bytes_of 8 created [])
          (let k = h.fits in omega (arith, length-bytes_of 8 created 4 [] h.fits)))

  take-uid : take (uid_b64 config) (key_of parts) ≡ parts.uid
  take-uid =
      ap (λ n. take n (key_of parts)) (sym length-uid)
      ∙ take-length parts.uid (parts.sid ++ parts.crt)

  take-head : take (key_min config) (key_of parts) ≡ parts.uid ++ parts.sid
  take-head =
      ap (λ n. take n (key_of parts)) (sym length-head)
      ∙ ap (take (length (parts.uid ++ parts.sid)))
          (sym (append_assoc parts.uid parts.sid parts.crt))
      ∙ take-length (parts.uid ++ parts.sid) parts.crt

  drop-head : drop (key_min config) (key_of parts) ≡ parts.crt
  drop-head =
      ap (λ n. drop n (key_of parts)) (sym length-head)
      ∙ ap (drop (length (parts.uid ++ parts.sid)))
          (sym (append_assoc parts.uid parts.sid parts.crt))
      ∙ drop-length (parts.uid ++ parts.sid) parts.crt

  take-sid : drop (uid_b64 config) (take (key_min config) (key_of parts)) ≡ parts.sid
  take-sid =
      ap (drop (uid_b64 config)) take-head
      ∙ ap (λ n. drop n (parts.uid ++ parts.sid)) (sym length-uid)
      ∙ drop-length parts.uid parts.sid

  length-key : length (key_of parts) ≡ key_min config + length parts.crt
  length-key = omega (
    arith,
    length-append parts.uid (parts.sid ++ parts.crt),
    length-append parts.sid parts.crt,
    length-append parts.uid parts.sid,
    length-head,
  )

  in_bounds :
      (leb (key_min config) (length (key_of parts)) && leb (length (key_of parts)) (key_max config))
      ≡ true
  unfolding key_max zero_bytes encode
  in_bounds = ground (arith, length-key, length-crt)

  -- The key of a session gives its parts as long as the session lives.
  pub parse_key-key_of :
      is_current config now created ≡ true → parse_key config now (key_of parts) ≡ some parts
  unfolding parse_key
  parse_key-key_of c =
      ground (arith, in_bounds, take-uid, take-sid, drop-head, parse_parts-generated)
