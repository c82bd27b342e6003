-- ===== src/LogFilter.antt =====
-- core/base/libs/socrate/socrate/log_filter.py: the bounded filter between a service's pipes and
-- the container's output. The state of one pipe and of its sink is a `Stream` (`buffers[pipe]`,
-- `pipe in discarding`, `outputs[pipe]`, and `dropped` and `disabled` at that descriptor); the two
-- streams of a process share the queue. `patterns` is the test that some pattern is found in a line.
pub mod Writer
pub mod Chunks
pub mod Bounds
mod Tests
use mailu.Prelude.{
  ℕ, zero, suc, ◌+◌, ◌*◌, Bool, true, false, Option, none, some, List, [], ◌∷◌, ◌++◌, ltb, ◌==◌,
  if◌then◌else◌, length, take, drop, Bytes, codes, decimal,
}

-- MAX_LINE_SIZE and MAX_QUEUED_LINES
abbrev pub max_line_size : ℕ
max_line_size = 65536

abbrev pub max_queued_lines : ℕ
max_queued_lines = 64

abbrev pub newline : ℕ
newline = 10

abbrev pub Queue : Type 0
Queue = List (ℕ × Bytes)

pub record Stream : Type 0 where
  pub output_fd : ℕ
  pub buffer : Bytes
  pub discarding : Bool
  pub dropped : ℕ
  pub disabled : Bool

-- a stream with the queue that it shares
pub record Filter : Type 0 where
  pub stream : Stream
  pub open stream use *
  pub queue : Queue

-- `put_nowait`; none is `queue.Full`
abbrev pub put_nowait : Queue → ℕ × Bytes → Option Queue
put_nowait queue item =
    if ltb (length queue) max_queued_lines then some (queue ++ item ∷ []) else none

abbrev pub notice : ℕ → Bytes
notice dropped =
    codes "[mailu log filter] dropped "
    ++ (decimal dropped ++ codes " log lines (backpressure or oversized line)\n")

abbrev pub set_dropped : Filter → ℕ → Filter
set_dropped s n = record s { stream = record s.stream { dropped = n } }

abbrev pub drop_line : Filter → Filter
drop_line s = set_dropped s (s.dropped + 1)

abbrev pub refill : Filter → Bytes → Filter
refill s buffer = record s { stream = record s.stream { buffer = buffer } }

-- the notice of what was dropped goes first, if there is room for it
pub announce : Filter → Filter
announce s =
    if s.dropped == 0 then s else elim (put_nowait s.queue (s.output_fd, notice s.dropped)) [
      | none ↦ s
      | some queue ↦ record (set_dropped s 0) { queue = queue }
    ]

enqueue : Bytes → Filter → Filter
enqueue line s = elim (put_nowait s.queue (s.output_fd, line)) [
  | none ↦ drop_line s
  | some queue ↦ record s { queue = queue }
]

-- `chunk.find(b"\n")`; none is -1
abbrev pub find_newline : Bytes → Option ℕ
find_newline [] = none
find_newline (x ∷ xs) =
    if x == newline then some 0 else elim (find_newline xs) [ none ↦ none | some n ↦ some (suc n) ]

abbrev pub overflow : Filter → Filter
overflow s = record s {
  stream = record s.stream { buffer = []; discarding = true; dropped = s.dropped + 1 };
}

abbrev pub stop_discarding : Filter → Filter
stop_discarding s = record s { stream = record s.stream { discarding = false } }

-- the end of a chunk that holds no newline
keep_partial : Bytes → Filter → Filter
keep_partial chunk s =
    if ltb max_line_size (length s.buffer + length chunk)
    then overflow s
    else refill s (s.buffer ++ chunk)

module _ (patterns : Bytes → Bool) where
  pub emit : Bytes → Filter → Filter
  unfolding announce enqueue
  emit line s =
      if patterns line then s else if s.disabled then drop_line s else enqueue line (announce s)

  pub emit_line : Bytes → Filter → Filter
  unfolding emit
  emit_line line s = if ltb max_line_size (length line) then drop_line s else emit line s

  -- `while chunk`: each round but the last takes a newline off the chunk, so the length of the
  -- chunk and one more is fuel enough
  pub consume : ℕ → Bytes → Filter → Filter
  unfolding keep_partial emit_line
  consume zero chunk s = s
  consume (suc f) [] s = s
  consume (suc f) (c ∷ cs) s = elim s.discarding [
    | true ↦ elim (find_newline (c ∷ cs)) [
      | none ↦ s
      | some n ↦ consume f (drop (suc n) (c ∷ cs)) (stop_discarding s)
    ]
    | false ↦ elim (find_newline (c ∷ cs)) [
      | none ↦ keep_partial (c ∷ cs) s
      | some n ↦
          consume f (drop (suc n) (c ∷ cs))
            (emit_line (s.buffer ++ take (suc n) (c ∷ cs)) (refill s []))
    ]
  ]

  abbrev pub consume_chunk : Bytes → Filter → Filter
  consume_chunk chunk s = consume (suc (length chunk)) chunk s

  pub flush_partial : Filter → Filter
  unfolding emit_line
  flush_partial s =
      if s.discarding
      then s
      else elim s.buffer [ [] ↦ s | b ∷ bs ↦ emit_line (b ∷ bs) (refill s []) ]

  -- one turn of the loop of `main` at a ready pipe: an empty read is the end of the pipe
  pub on_read : Bytes → Filter → Filter
  unfolding consume flush_partial
  on_read [] s = flush_partial s
  on_read (c ∷ cs) s = consume_chunk (c ∷ cs) s
