-- ===== src/Podop/Netstring/Buffer/Chunks.antt =====
-- However a netstring is cut into reads, it is delivered once, as it was sent.
use mailu.Prelude.{
  ℕ, ◌+◌, ◌≤◌, ◌<◌, ◌≡◌, refl, sym, ap, ◌∙◌, subst, ◌≢◌, ◌⊎◌, inl, inr, true, Option, none, some,
  List, [], ◌∷◌, ◌++◌, append_assoc, append-nil, arith, ltb, if◌then◌else◌, length, all,
  length-append, Bytes, decimal, is_digit, read_digits, read_digits-decimal, decimal-IsDigits,
  decimal-pos,
}
use mailu.Podop.Netstring.{
  base_buffer, Netstring, zeros, init_buffer, find, fill, detect, deliver, data_received,
  send_string, receive,
}
use mailu.Podop.Netstring.Buffer.{
  prefix_cases, length-pad, fill-state, detect-waiting, detect-known, detect-colon, deliver-waiting,
  deliver-partial, frame, deliver-whole, state, pad,
}

not_full {ℓ} : {A : Type ℓ} (m n : ℕ) (o : Option A) → n ≤ m → (if ltb m n then none else o) ≡ o
not_full m n o h = ground arith

module _ (d p : Bytes) (digits : all is_digit d ≡ true) (some_digits : 0 < length d)
    (reads : read_digits 0 d ≡ some (length p)) (fits : length (frame d p) ≤ base_buffer) where
  -- what has come in of the frame, and the state then
  data Pending (x : Bytes) (s : Netstring) : Type 0 where
    waiting : (e : Bytes) → x ++ e ≡ d → s ≡ state none none x → Pending x s
    reading :
        (q : Bytes)
        → x ≡ d ++ b':' ∷ q
        → length q < length p + 1
        → s ≡ state (some (length p)) (some (length d)) x
        → Pending x s

  room : (x y rest : Bytes) → (x ++ y) ++ rest ≡ frame d p → length x + length y ≤ base_buffer
  room x y rest h =
      let lengths : length ((x ++ y) ++ rest) ≡ length (frame d p) = ap length h in
      omega (arith, length-append (x ++ y) rest, length-append x y)

  received :
      (e sp : Option ℕ) (x y rest : Bytes)
      → (x ++ y) ++ rest ≡ frame d p
      → data_received y (state e sp x) ≡ some (deliver (detect (state e sp (x ++ y))))
  unfolding data_received
  received e sp x y rest h =
      not_full (length (pad x)) (length y + length x) _
        (omega (arith, room x y rest h, length-pad x (omega (arith, room x y rest h))))
      ∙ ap (λ t. some (deliver (detect t))) (fill-state e sp x y)

  Step : Bytes → Bytes → Bytes → Netstring → Type 0
  Step x y rest s =
      ((rest ≡ []) × (data_received y s ≡ some (init_buffer, some p)))
      ⊎ ((s' : Netstring) × (data_received y s ≡ some (s', none)) × Pending (x ++ y) s')

  -- when the length has been read, the content is complete or not
  read_step :
      (e sp : Option ℕ) (x y q rest : Bytes)
      → (x ++ y) ++ rest ≡ frame d p
      → x ++ y ≡ d ++ b':' ∷ q
      → q ++ rest ≡ p ++ b',' ∷ []
      → detect (state e sp (x ++ y)) ≡ state (some (length p)) (some (length d)) (x ++ y)
      → Step x y rest (state e sp x)
  unfolding Step
  read_step e sp x y q [] h parts content known =
      let whole : x ++ y ≡ frame d p = sym (append-nil (x ++ y)) ∙ h in
      inl (
        refl,
        received e sp x y [] h
            ∙ ap (λ t. some (deliver t))
                (known ∙ ap (state (some (length p)) (some (length d))) whole)
            ∙ ap some (deliver-whole d p),
      )
  read_step e sp x y q (r ∷ rs) h parts content known =
      let lengths : length (q ++ r ∷ rs) ≡ length (p ++ b',' ∷ []) = ap length content in
      let long : length (x ++ y) ≡ length (d ++ b':' ∷ q) = ap length parts in
      inr (
        state (some (length p)) (some (length d)) (x ++ y),
        received e sp x y (r ∷ rs) h
            ∙ ap (λ t. some (deliver t)) known
            ∙ ap some (
                deliver-partial (length p) (length d) (x ++ y) (λ same. omega (
                  arith,
                  length-append q (r ∷ rs),
                  length-append p (b',' ∷ []),
                  length-append d (b':' ∷ q),
                ))),
        reading q parts (omega (arith, length-append q (r ∷ rs), length-append p (b',' ∷ []))) refl,
      )

  all-append_left : (xs ys : Bytes) → all is_digit (xs ++ ys) ≡ true → all is_digit xs ≡ true
  all-append_left [] ys h = refl
  all-append_left (x ∷ xs) ys h = ground (arith, all-append_left xs ys)

  wait_step : (x y rest : Bytes) → (x ++ y) ++ rest ≡ frame d p → Step x y rest (state none none x)
  unfolding frame Step
  wait_step x y rest h = elim (prefix_cases d (p ++ b',' ∷ []) (x ++ y) rest h) [
    | inl (e, same) ↦ inr (
      state none none (x ++ y),
      received none none x y rest h
          ∙ ap (λ t. some (deliver t))
              (detect-waiting (x ++ y)
                (all-append_left (x ++ y) e (ap (all is_digit) same ∙ digits)))
          ∙ ap some (deliver-waiting none (x ++ y)),
      waiting e same refl,
    )
    | inr (q, parts, content) ↦ read_step none none x y q rest h parts content (
        subst (λ z. detect (state none none z) ≡ state (some (length p)) (some (length d)) z)
          (sym parts) (detect-colon d q (length p) digits some_digits reads))
  ]

  more_step :
      (x y q rest : Bytes)
      → x ≡ d ++ b':' ∷ q
      → (x ++ y) ++ rest ≡ frame d p
      → Step x y rest (state (some (length p)) (some (length d)) x)
  unfolding frame
  more_step x y q rest same h = elim (prefix_cases d (p ++ b',' ∷ []) (x ++ y) rest h) [
    | inl (e, short) ↦
        let a : length ((x ++ y) ++ e) ≡ length d = ap length short in
        let b : length x ≡ length (d ++ b':' ∷ q) = ap length same in
        absurd
          (omega (arith, length-append (x ++ y) e, length-append x y, length-append d (b':' ∷ q)))
    | inr (q', parts, content) ↦
        read_step (some (length p)) (some (length d)) x y q' rest h parts content
          (detect-known (length p) (some (length d)) (x ++ y))
  ]

  step :
      (x y rest : Bytes) (s : Netstring)
      → Pending x s
      → (x ++ y) ++ rest ≡ frame d p
      → Step x y rest s
  step x y rest s (waiting e pre same) h = subst (Step x y rest) (sym same) (wait_step x y rest h)
  step x y rest s (reading q parts short same) h =
      subst (Step x y rest) (sym same) (more_step x y q rest parts h)

  unfinished : (x : Bytes) (s : Netstring) → Pending x s → x ≢ frame d p
  unfolding frame
  unfinished x s (waiting e pre same) h =
      let a : length (x ++ e) ≡ length d = ap length pre in
      let b : length x ≡ length (d ++ b':' ∷ (p ++ b',' ∷ [])) = ap length h in
      omega (arith, length-append x e, length-append d (b':' ∷ (p ++ b',' ∷ [])))
  unfinished x s (reading q parts short same) h =
      let a : length x ≡ length (d ++ b':' ∷ q) = ap length parts in
      let b : length x ≡ length (d ++ b':' ∷ (p ++ b',' ∷ [])) = ap length h in
      omega (
        arith,
        length-append d (b':' ∷ q),
        length-append d (b':' ∷ (p ++ b',' ∷ [])),
        length-append p (b',' ∷ []),
      )

-- the bytes of a sequence of reads
abbrev pub all_of : List Bytes → Bytes
all_of [] = []
all_of (y ∷ ys) = y ++ all_of ys

empty_read : data_received [] init_buffer ≡ some (init_buffer, none)
unfolding data_received fill detect deliver init_buffer zeros find
empty_read = refl

empty_reads : (ys : List Bytes) → all_of ys ≡ [] → receive ys init_buffer ≡ some (init_buffer, [])
unfolding receive
empty_reads [] h = refl
empty_reads ([] ∷ ys) h = ground (arith, empty_read, empty_reads ys)
empty_reads ((c ∷ cs) ∷ ys) h = cc

module _ (d p : Bytes) (digits : all is_digit d ≡ true) (some_digits : 0 < length d)
    (reads : read_digits 0 d ≡ some (length p)) (fits : length (frame d p) ≤ base_buffer) where
  -- the rest of the frame, read by read
  receive-frame :
      (x : Bytes) (s : Netstring) (ys : List Bytes)
      → Pending d p digits some_digits reads fits x s
      → x ++ all_of ys ≡ frame d p
      → receive ys s ≡ some (init_buffer, p ∷ [])
  unfolding receive Step
  receive-frame x s [] w h =
      absurd (unfinished d p digits some_digits reads fits x s w (sym (append-nil x) ∙ h))
  receive-frame x s (y ∷ ys) w h =
      elim (step d p digits some_digits reads fits x y (all_of ys) s w
        (append_assoc x y (all_of ys) ∙ h)) [
          | inl (done, got) ↦ ground (arith, empty_reads ys done)
          | inr (s', got, w') ↦
              ground (arith, receive-frame (x ++ y) s' ys w' (append_assoc x y (all_of ys) ∙ h))
        ]

-- A netstring that fits the buffer is delivered once and as it was sent, however it is cut into reads,
-- and leaves the empty buffer for the next one.
pub receive-send_string :
    (string : Bytes) (ys : List Bytes)
    → all_of ys ≡ send_string string
    → length (send_string string) ≤ base_buffer
    → receive ys init_buffer ≡ some (init_buffer, string ∷ [])
unfolding send_string init_buffer frame
receive-send_string string ys h fits =
    receive-frame (decimal (length string)) string (decimal-IsDigits (length string))
      (decimal-pos (length string)) (read_digits-decimal (length string)) fits [] init_buffer ys
      (waiting (decimal (length string)) refl refl) h
