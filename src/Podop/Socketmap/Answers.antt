-- ===== src/Podop/Socketmap/Answers.antt =====
-- A lookup over the wire, from the request's reads to the answer that Postfix reads.
use mailu.Prelude.{
  ℕ, suc, ◌≤◌, ◌≡◌, refl, ap, false, none, some, List, [], ◌∷◌, ◌++◌, arith, length, take, drop,
  Bytes, has, codes, decimal, subst,
}
use mailu.Podop.Dict.{Found, found, missing, failed}
use mailu.Podop.Netstring.{base_buffer, find, init_buffer, send_string}
use mailu.Podop.Netstring.Buffer.Chunks.{all_of, receive-send_string}
use mailu.Podop.Socketmap.{Maps, answer, process_request, string_received, replies_to, serve}

find-has : (d : ℕ) (xs ys : Bytes) → has d xs ≡ false → find d (xs ++ d ∷ ys) ≡ some (length xs)
unfolding find has
find-has d [] ys h = ground arith
find-has d (x ∷ xs) ys h = ground (arith, find-has d xs ys)

take-name : (xs ys : Bytes) → take (length xs) (xs ++ ys) ≡ xs
take-name [] ys = refl
take-name (x ∷ xs) ys = ap (λ r. x ∷ r) (take-name xs ys)

drop-name : (d : ℕ) (xs ys : Bytes) → drop (suc (length xs)) (xs ++ d ∷ ys) ≡ ys
drop-name d [] ys = refl
drop-name d (x ∷ xs) ys = drop-name d xs ys

-- what the table says of a key, where a map of an unknown name fails
abbrev pub found_in : Maps → Bytes → Bytes → Found
found_in maps name key = elim (maps.table_map name) [ none ↦ failed | some get ↦ get key ]

string_received-request :
    (maps : Maps) (name key n k : Bytes)
    → has 32 name ≡ false
    → maps.ascii name ≡ some n
    → maps.utf8 key ≡ some k
    → string_received maps (name ++ 32 ∷ key)
      ≡ some (some (send_string (answer (found_in maps n k))))
unfolding string_received process_request
string_received-request maps name key n k h a u =
    ground (arith, find-has 32 name key, take-name name (32 ∷ key), drop-name 32 name key)

-- the reply to a lookup of `k` in the table named `n`, for each thing that the table may say of it
pub record Answered (maps : Maps) (reads : List Bytes) (n k : Bytes) : Type 0 where
  pub when_found :
      (get : Bytes → Found) (result : Bytes)
      → maps.table_map n ≡ some get
      → get k ≡ found result
      → serve maps reads init_buffer ≡ some (init_buffer, send_string (codes "OK " ++ result) ∷ [])
  pub when_missing :
      (get : Bytes → Found)
      → maps.table_map n ≡ some get
      → get k ≡ missing
      → serve maps reads init_buffer ≡ some (init_buffer, codes "9:NOTFOUND ," ∷ [])
  pub when_failed :
      (get : Bytes → Found)
      → maps.table_map n ≡ some get
      → get k ≡ failed
      → serve maps reads init_buffer ≡ some (init_buffer, codes "18:TEMP unknown error," ∷ [])
  pub when_unknown :
      maps.table_map n ≡ none
      → serve maps reads init_buffer ≡ some (init_buffer, codes "18:TEMP unknown error," ∷ [])

serve-reply :
    (maps : Maps) (name key n k : Bytes) (reads : List Bytes)
    → has 32 name ≡ false
    → maps.ascii name ≡ some n
    → maps.utf8 key ≡ some k
    → all_of reads ≡ send_string (name ++ 32 ∷ key)
    → length (send_string (name ++ 32 ∷ key)) ≤ base_buffer
    → serve maps reads init_buffer
      ≡ some (init_buffer, send_string (answer (found_in maps n k)) ∷ [])
unfolding serve replies_to
serve-reply maps name key n k reads h a u e fits = ground (
  arith,
  receive-send_string (name ++ 32 ∷ key) reads e fits,
  string_received-request maps name key n k h a u,
)

found_in-get :
    (maps : Maps) (n k : Bytes) (get : Bytes → Found) (f : Found)
    → maps.table_map n ≡ some get
    → get k ≡ f
    → found_in maps n k ≡ f
found_in-get maps n k get f h g = rw (found_in, h) g

-- A lookup whose request fits the buffer has one reply, however the request is cut into reads: a
-- netstring that says OK with the result where the table has the key, NOTFOUND where it has not, and
-- TEMP where the table fails or is unknown.
pub serve-request :
    (maps : Maps) (name key n k : Bytes) (reads : List Bytes)
    → has 32 name ≡ false
    → maps.ascii name ≡ some n
    → maps.utf8 key ≡ some k
    → all_of reads ≡ send_string (name ++ 32 ∷ key)
    → length (send_string (name ++ 32 ∷ key)) ≤ base_buffer
    → Answered maps reads n k
unfolding answer send_string decimal
serve-request maps name key n k reads h a u e fits =
    let reply = serve-reply maps name key n k reads h a u e fits in
    let replied : (f : Found)
        → found_in maps n k ≡ f
        → serve maps reads init_buffer ≡ some (init_buffer, send_string (answer f) ∷ []) =
      λ f g.
        subst (λ x. serve maps reads init_buffer ≡ some (init_buffer, send_string (answer x) ∷ []))
          g reply in
    record {
      when_found = λ get result t g. replied (found result) (found_in-get maps n k get _ t g);
      when_missing = λ get t g. replied missing (found_in-get maps n k get _ t g);
      when_failed = λ get t g. replied failed (found_in-get maps n k get _ t g);
      when_unknown = λ t. replied failed (rw (found_in, t) refl);
    }
