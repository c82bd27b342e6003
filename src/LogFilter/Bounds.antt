-- ===== src/LogFilter/Bounds.antt =====
-- `_emit`: the queue is bounded, and no line is lost without being counted.
use mailu.Prelude.{
  ℕ, ◌+◌, ◌≤◌, ◌≡◌, refl, sym, ap, ◌∙◌, subst, inl, inr, Bool, true, false, List, [], ◌∷◌, ◌++◌,
  append_assoc, append-nil, arith, ltb, ◌==◌, if◌then◌else◌, Bool-cases, length, length-append,
  Bytes,
}
use mailu.LogFilter.{Queue, Filter, max_queued_lines, notice, drop_line, announce, enqueue, emit}

-- What `_emit` put into the queue: a line, or a notice that a number of lines were dropped.
pub data Item : Type 0 where
  line : Bytes → Item
  dropped_lines : ℕ → Item

abbrev pub render : ℕ → Item → ℕ × Bytes
render fd (line bytes) = (fd, bytes)
render fd (dropped_lines n) = (fd, notice n)

-- the lines that an item stands for
abbrev pub weight : List Item → ℕ
weight [] = 0
weight (line bytes ∷ items) = 1 + weight items
weight (dropped_lines n ∷ items) = n + weight items

abbrev pub shown : ℕ → List Item → Queue
shown fd [] = []
shown fd (item ∷ items) = render fd item ∷ shown fd items

weight-append : (xs ys : List Item) → weight (xs ++ ys) ≡ weight xs + weight ys
weight-append [] ys = omega arith
weight-append (line b ∷ xs) ys = omega (arith, weight-append xs ys)
weight-append (dropped_lines n ∷ xs) ys = omega (arith, weight-append xs ys)

shown-append : (fd : ℕ) (xs ys : List Item) → shown fd (xs ++ ys) ≡ shown fd xs ++ shown fd ys
shown-append fd [] ys = refl
shown-append fd (x ∷ xs) ys = ap (λ r. render fd x ∷ r) (shown-append fd xs ys)

-- `t` is `s` after `lines` more lines, each of them queued, announced or counted
pub record Accounts (lines : ℕ) (s t : Filter) : Type 0 where
  pub items : List Item
  pub queued : t.queue ≡ s.queue ++ shown s.output_fd items
  pub counted : weight items + t.dropped ≡ s.dropped + lines
  pub same_fd : t.output_fd ≡ s.output_fd

Accounts-trans : (m n : ℕ) (s t u : Filter) → Accounts m s t → Accounts n t u → Accounts (m + n) s u
Accounts-trans m n s t u a b = record {
  items = a.items ++ b.items;
  queued =
      b.queued
      ∙ ground (
        arith,
        a.queued,
        a.same_fd,
        shown-append s.output_fd a.items b.items,
        append_assoc s.queue (shown s.output_fd a.items) (shown s.output_fd b.items),
      );
  counted = omega (arith, a.counted, b.counted, weight-append a.items b.items);
  same_fd = b.same_fd ∙ a.same_fd;
}

announce-Accounts : (s : Filter) → Accounts 0 s (announce s)
unfolding announce
announce-Accounts s = elim (Bool-cases (s.dropped == 0)) [
  | inl zero_dropped ↦ record {
    items = [];
    queued = ground (arith, append-nil s.queue);
    counted = ground arith;
    same_fd = ground arith;
  }
  | inr some_dropped ↦ elim (Bool-cases (ltb (length s.queue) max_queued_lines)) [
    | inl room ↦ record {
      items = dropped_lines s.dropped ∷ [];
      queued = ground arith;
      counted = ground arith;
      same_fd = ground arith;
    }
    | inr full ↦ record {
      items = [];
      queued = ground (arith, append-nil s.queue);
      counted = ground arith;
      same_fd = ground arith;
    }
  ]
]

enqueue-Accounts : (bytes : Bytes) (s : Filter) → Accounts 1 s (enqueue bytes s)
unfolding enqueue
enqueue-Accounts bytes s = elim (Bool-cases (ltb (length s.queue) max_queued_lines)) [
  | inl room ↦ record {
    items = line bytes ∷ [];
    queued = ground arith;
    counted = ground arith;
    same_fd = ground arith;
  }
  | inr full ↦ record {
    items = [];
    queued = ground (arith, append-nil s.queue);
    counted = ground arith;
    same_fd = ground arith;
  }
]

module _ (patterns : Bytes → Bool) where
  -- the lines that no pattern filters out
  abbrev pub kept : List Bytes → ℕ
  kept [] = 0
  kept (x ∷ xs) = (if patterns x then 0 else 1) + kept xs

  pub emits : List Bytes → Filter → Filter
  unfolding emit
  emits [] s = s
  emits (x ∷ xs) s = emits xs (emit patterns x s)

  module _ (x : Bytes) (s : Filter) (wanted : patterns x ≡ false) where
    emit_disabled : s.disabled ≡ true → emit patterns x s ≡ drop_line s
    unfolding emit
    emit_disabled off = ground arith

    emit_enabled : s.disabled ≡ false → emit patterns x s ≡ enqueue x (announce s)
    unfolding emit
    emit_enabled on = ground arith

    emit_wanted-Accounts : Accounts 1 s (emit patterns x s)
    emit_wanted-Accounts = elim (Bool-cases s.disabled) [
      | inl off ↦ subst (Accounts 1 s) (sym (emit_disabled off)) (record {
        items = [];
        queued = sym (append-nil s.queue);
        counted = omega arith;
        same_fd = refl;
      })
      | inr on ↦ subst (Accounts 1 s) (sym (emit_enabled on)) (
          Accounts-trans 0 1 s (announce s) (enqueue x (announce s)) (announce-Accounts s)
            (enqueue-Accounts x (announce s)))
    ]

  emit_filtered : (x : Bytes) (s : Filter) → patterns x ≡ true → emit patterns x s ≡ s
  unfolding emit
  emit_filtered x s filtered = ground arith

  emit_filtered-Accounts :
      (x : Bytes) (s : Filter) → patterns x ≡ true → Accounts 0 s (emit patterns x s)
  emit_filtered-Accounts x s filtered =
      subst (Accounts 0 s) (sym (emit_filtered x s filtered)) (record {
        items = [];
        queued = sym (append-nil s.queue);
        counted = omega arith;
        same_fd = refl;
      })

  emit-Accounts :
      (x : Bytes) (s : Filter) → Accounts (if patterns x then 0 else 1) s (emit patterns x s)
  emit-Accounts x s = elim (Bool-cases (patterns x)) [
    | inl filtered ↦
        subst (λ n. Accounts n s (emit patterns x s)) (ground arith)
          (emit_filtered-Accounts x s filtered)
    | inr wanted ↦
        subst (λ n. Accounts n s (emit patterns x s)) (ground arith)
          (emit_wanted-Accounts x s wanted)
  ]

  -- Whatever lines `_emit` is given, each one that no pattern filters out is in the queue, or in the
  -- number of a notice in the queue, or still counted in `dropped`.
  pub emits-Accounts : (lines : List Bytes) (s : Filter) → Accounts (kept lines) s (emits lines s)
  unfolding emits
  emits-Accounts [] s = record {
    items = [];
    queued = sym (append-nil s.queue);
    counted = omega arith;
    same_fd = refl;
  }
  emits-Accounts (x ∷ xs) s =
      Accounts-trans (if patterns x then 0 else 1) (kept xs) s (emit patterns x s)
        (emits xs (emit patterns x s)) (emit-Accounts x s) (emits-Accounts xs (emit patterns x s))

  emit-queue :
      (x : Bytes) (s : Filter)
      → length s.queue ≤ max_queued_lines
      → length (emit patterns x s).queue ≤ max_queued_lines
  unfolding emit
  emit-queue x s h = ground (
    arith,
    length-append s.queue ((s.output_fd, notice s.dropped) ∷ []),
    length-append s.queue ((s.output_fd, x) ∷ []),
    length-append (s.queue ++ (s.output_fd, notice s.dropped) ∷ []) ((s.output_fd, x) ∷ []),
  )

  -- The queue never holds more than MAX_QUEUED_LINES items.
  pub emits-queue :
      (lines : List Bytes) (s : Filter)
      → length s.queue ≤ max_queued_lines
      → length (emits lines s).queue ≤ max_queued_lines
  unfolding emits
  emits-queue [] s h = h
  emits-queue (x ∷ xs) s h = emits-queue xs (emit patterns x s) (emit-queue x s h)
