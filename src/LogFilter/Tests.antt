-- ===== src/LogFilter/Tests.antt =====
-- Runs of the log filter.
use mailu.Prelude.{◌≡◌, refl, Bool, false, [], ◌∷◌, ◌++◌, arith, ◌==◌, Bytes, codes}
use mailu.LogFilter.{Filter, consume, consume_chunk}
use mailu.LogFilter.Chunks.{IsBounded, consume_chunk-IsBounded, consume_chunk-append}

abbrev fresh : Filter
fresh = record {
  stream = record { output_fd = 1; buffer = []; discarding = false; dropped = 0; disabled = false };
  queue = [];
}

abbrev no_patterns : Bytes → Bool
no_patterns line = false

-- a filter for lines that begin with `#`
abbrev comments : Bytes → Bool
comments [] = false
comments (x ∷ xs) = x == b'#'

two_lines :
    (consume_chunk no_patterns (codes "ab\ncd\ne") fresh).queue
    ≡ (1, codes "ab\n") ∷ (1, codes "cd\n") ∷ []
unfolding consume
two_lines = refl

consume_chunk-IsBounded_example : IsBounded (consume_chunk no_patterns (codes "ab\nc") fresh)
consume_chunk-IsBounded_example =
    consume_chunk-IsBounded no_patterns (codes "ab\nc") fresh (omega arith)

consume_chunk-append_example :
    consume_chunk no_patterns (codes "ab\nc" ++ codes "d\n") fresh
    ≡ consume_chunk no_patterns (codes "d\n") (consume_chunk no_patterns (codes "ab\nc") fresh)
consume_chunk-append_example =
    consume_chunk-append no_patterns (codes "ab\nc") (codes "d\n") fresh (omega arith)
