-- ===== src/LogFilter/Chunks.antt =====
-- How the bytes of a pipe are cut into chunks makes no difference: `_consume` is a machine that
-- reads one byte at a time.
use mailu.Prelude.{
  ℕ, zero, suc, ◌+◌, ◌≤◌, ◌<◌, ◌≡◌, refl, sym, ap, ◌∙◌, Bool, true, false, Option, none, some, [],
  ◌∷◌, ◌++◌, append_assoc, append-nil, arith, ltb, ◌==◌, if◌then◌else◌, length, take, drop,
  length-append, take-append-drop, Bytes,
}
use mailu.LogFilter.{
  Filter, max_line_size, newline, refill, overflow, stop_discarding, keep_partial, find_newline,
  emit_line, consume, consume_chunk,
}

abbrev pub IsBounded : Filter → Type 0
IsBounded s = length s.buffer ≤ max_line_size

module _ (patterns : Bytes → Bool) where
  -- the reference: one byte of the pipe
  pub feed : Filter → ℕ → Filter
  feed s b =
      if s.discarding
      then (if b == newline then stop_discarding s else s)
      else if b == newline
      then emit_line patterns (s.buffer ++ b ∷ []) (refill s [])
      else if ltb max_line_size (length s.buffer + 1)
      then overflow s
      else refill s (s.buffer ++ b ∷ [])

  pub feeds : Bytes → Filter → Filter
  unfolding feed
  feeds [] s = s
  feeds (x ∷ xs) s = feeds xs (feed s x)

  feeds-append : (xs ys : Bytes) (s : Filter) → feeds (xs ++ ys) s ≡ feeds ys (feeds xs s)
  unfolding feeds
  feeds-append [] ys s = refl
  feeds-append (x ∷ xs) ys s = feeds-append xs ys (feed s x)

  feeds_discarding :
      (xs : Bytes) (s : Filter) → s.discarding ≡ true → find_newline xs ≡ none → feeds xs s ≡ s
  unfolding feeds
  feeds_discarding [] s d h = refl
  feeds_discarding (x ∷ xs) s d h = ground (arith, feeds_discarding xs s)

  feeds_partial :
      (xs : Bytes) (s : Filter)
      → s.discarding ≡ false
      → IsBounded s
      → find_newline xs ≡ none
      → feeds xs s ≡ keep_partial xs s
  unfolding feeds keep_partial
  feeds_partial [] s d b h = ground (arith, append-nil s.buffer)
  feeds_partial (x ∷ xs) s d b h = ground (
    arith,
    feeds_discarding xs (overflow s),
    feeds_partial xs (refill s (s.buffer ++ x ∷ [])),
    length-append s.buffer (x ∷ []),
    append_assoc s.buffer (x ∷ []) xs,
  )

  -- a line that ends in this chunk
  feeds_line :
      (xs : Bytes) (s : Filter)
      → s.discarding ≡ false
      → IsBounded s
      → find_newline xs ≡ none
      → feeds (xs ++ newline ∷ []) s
        ≡ emit_line patterns (s.buffer ++ (xs ++ newline ∷ [])) (refill s [])
  feeds_line xs s d b h =
      feeds-append xs (newline ∷ []) s
      ∙ rw (feeds_partial xs s d b h) (
          unfold feeds keep_partial emit_line in
          ground (
            arith,
            length-append s.buffer (xs ++ newline ∷ []),
            length-append xs (newline ∷ []),
            append_assoc s.buffer xs (newline ∷ []),
          ))

  feeds_discarded_line :
      (xs : Bytes) (s : Filter)
      → s.discarding ≡ true
      → find_newline xs ≡ none
      → feeds (xs ++ newline ∷ []) s ≡ stop_discarding s
  feeds_discarded_line xs s d h =
      feeds-append xs (newline ∷ []) s
      ∙ rw (feeds_discarding xs s d h) (unfold feeds in ground arith)

-- a chunk with a newline at `n` is a line and the rest
find_newline-split :
    (xs : Bytes) (n : ℕ)
    → find_newline xs ≡ some n
    → (find_newline (take n xs) ≡ none)
      × (take (suc n) xs ≡ take n xs ++ newline ∷ [])
      × (length (drop (suc n) xs) < length xs)
find_newline-split [] n h = cc
find_newline-split (x ∷ xs) zero h = ground arith
find_newline-split (x ∷ xs) (suc n) h = ground (arith, find_newline-split xs n)

module _ (patterns : Bytes → Bool) where
  emit_line-buffer :
      (line : Bytes) (s : Filter) → (emit_line patterns line (refill s [])).buffer ≡ []
  unfolding emit_line
  emit_line-buffer line s = ground arith

  -- what one round of `_consume` leaves is what the bytes that it took leave
  abbrev Reads : ℕ → Type 0
  Reads f =
      (chunk : Bytes) (s : Filter)
      → length chunk < f
      → IsBounded s
      → consume patterns f chunk s ≡ feeds patterns chunk s

  -- a chunk is its first line and the rest
  feeds-split :
      (chunk : Bytes) (n : ℕ) (s t : Filter)
      → find_newline chunk ≡ some n
      → feeds patterns (take n chunk ++ newline ∷ []) s ≡ t
      → feeds patterns chunk s ≡ feeds patterns (drop (suc n) chunk) t
  feeds-split chunk n s t e h =
      ap (λ xs. feeds patterns xs s) (sym (take-append-drop (suc n) chunk))
      ∙ feeds-append patterns (take (suc n) chunk) (drop (suc n) chunk) s
      ∙ ap (feeds patterns (drop (suc n) chunk)) (rw ((find_newline-split chunk n e).1) h)

  -- the four ways that a round can go
  module _ (f c : ℕ) (cs : Bytes) (s : Filter) where
    consume_discarded :
        s.discarding ≡ true → find_newline (c ∷ cs) ≡ none → consume patterns (suc f) (c ∷ cs) s ≡ s
    unfolding consume
    consume_discarded d e = ground arith

    consume_partial :
        s.discarding ≡ false
        → find_newline (c ∷ cs) ≡ none
        → consume patterns (suc f) (c ∷ cs) s ≡ keep_partial (c ∷ cs) s
    unfolding consume
    consume_partial d e = ground arith

    consume_resumed :
        {n : ℕ}
        → s.discarding ≡ true
        → find_newline (c ∷ cs) ≡ some n
        → consume patterns (suc f) (c ∷ cs) s
          ≡ consume patterns f (drop (suc n) (c ∷ cs)) (stop_discarding s)
    unfolding consume
    consume_resumed d e = ground arith

    consume_line :
        {n : ℕ}
        → s.discarding ≡ false
        → find_newline (c ∷ cs) ≡ some n
        → consume patterns (suc f) (c ∷ cs) s
          ≡ consume patterns f
              (drop (suc n) (c ∷ cs))
              (emit_line patterns (s.buffer ++ take (suc n) (c ∷ cs)) (refill s []))
    unfolding consume
    consume_line d e = ground arith

  consume_round :
      (f : ℕ) (c : ℕ) (cs : Bytes) (s : Filter)
      → length cs < f
      → IsBounded s
      → Reads f
      → (d : Bool) → s.discarding ≡ d
      → (o : Option ℕ) → find_newline (c ∷ cs) ≡ o
      → consume patterns (suc f) (c ∷ cs) s ≡ feeds patterns (c ∷ cs) s
  consume_round f c cs s h b ih true d none e =
      consume_discarded f c cs s d e ∙ sym (feeds_discarding patterns (c ∷ cs) s d e)
  consume_round f c cs s h b ih false d none e =
      consume_partial f c cs s d e ∙ sym (feeds_partial patterns (c ∷ cs) s d b e)
  consume_round f c cs s h b ih true d (some n) e =
      let (clean, line, shorter) = find_newline-split (c ∷ cs) n e in
      consume_resumed f c cs s d e
      ∙ ih (drop (suc n) (c ∷ cs)) (stop_discarding s) (omega arith) b
      ∙ sym (
          feeds-split (c ∷ cs) n s (stop_discarding s) e
            (feeds_discarded_line patterns (take n (c ∷ cs)) s d clean))
  consume_round f c cs s h b ih false d (some n) e =
      let (clean, line, shorter) = find_newline-split (c ∷ cs) n e in
      let whole : Bytes = s.buffer ++ take (suc n) (c ∷ cs) in
      consume_line f c cs s d e
      ∙ ih (drop (suc n) (c ∷ cs)) (emit_line patterns whole (refill s [])) (omega arith)
          (omega (arith, ap length (emit_line-buffer whole s)))
      ∙ sym (
          feeds-split (c ∷ cs) n s (emit_line patterns whole (refill s [])) e (
            feeds_line patterns (take n (c ∷ cs)) s d b clean
            ∙ ap (λ xs. emit_line patterns (s.buffer ++ xs) (refill s [])) (sym line)))

  -- The loop of `_consume` over one chunk, with fuel above its length, is its bytes read one by one.
  pub consume-eq-feeds :
      (f : ℕ) (chunk : Bytes) (s : Filter)
      → length chunk < f
      → IsBounded s
      → consume patterns f chunk s ≡ feeds patterns chunk s
  consume-eq-feeds zero chunk s h b = absurd (omega arith)
  consume-eq-feeds (suc f) [] s h b = unfold consume feeds in refl
  consume-eq-feeds (suc f) (c ∷ cs) s h b =
      consume_round f c cs s (omega arith) b (consume-eq-feeds f) s.discarding refl
        (find_newline (c ∷ cs)) refl

  feed-IsBounded : (s : Filter) (x : ℕ) → IsBounded s → IsBounded (feed patterns s x)
  unfolding feed
  feed-IsBounded s x b =
      ground (arith, emit_line-buffer (s.buffer ++ x ∷ []) s, length-append s.buffer (x ∷ []))

  feeds-IsBounded : (xs : Bytes) (s : Filter) → IsBounded s → IsBounded (feeds patterns xs s)
  unfolding feeds
  feeds-IsBounded [] s b = b
  feeds-IsBounded (x ∷ xs) s b = feeds-IsBounded xs (feed patterns s x) (feed-IsBounded s x b)

  -- However long a line is, `_consume` keeps at most MAX_LINE_SIZE bytes of it.
  pub consume_chunk-IsBounded :
      (chunk : Bytes) (s : Filter) → IsBounded s → IsBounded (consume_chunk patterns chunk s)
  consume_chunk-IsBounded chunk s b =
      rw (consume-eq-feeds (suc (length chunk)) chunk s (omega arith) b) (feeds-IsBounded chunk s b)

  -- Two reads in a row leave the filter, its queue and its counters as one read of all the bytes does.
  pub consume_chunk-append :
      (xs ys : Bytes) (s : Filter)
      → IsBounded s
      → consume_chunk patterns (xs ++ ys) s
        ≡ consume_chunk patterns ys (consume_chunk patterns xs s)
  consume_chunk-append xs ys s b =
      consume-eq-feeds _ (xs ++ ys) s (omega arith) b
      ∙ feeds-append patterns xs ys s
      ∙ sym (
          consume-eq-feeds _ ys _ (omega arith) (consume_chunk-IsBounded xs s b)
          ∙ ap (feeds patterns ys) (consume-eq-feeds _ xs s (omega arith) b))
