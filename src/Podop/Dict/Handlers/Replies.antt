-- ===== src/Podop/Dict/Handlers/Replies.antt =====
-- What Dovecot reads out of a reply.
use mailu.Prelude.{
  ℕ, ◌≡◌, refl, ap, ◌∙◌, true, false, List, [], ◌∷◌, ◌++◌, map, arith, ◌==◌, if◌then◌else◌, all,
  Bytes, split_on, has, split_on-clean, split_on-append, has-append,
}
use mailu.Podop.Escape.{tabescape, tabunescape}
use mailu.Podop.Escape.RoundTrip.{tabunescape-tabescape}
use mailu.Podop.Escape.Wire.{framing_free, tabescape-framing_free}
use mailu.Podop.Dict.{Event, written, reply, join_tab}

-- a reply of one byte and its arguments, as the client takes it apart: the line without its end, the
-- command, and the fields between tabs, unescaped
abbrev pub line_of : Bytes → Bytes
line_of [] = []
line_of (x ∷ xs) = let rest = line_of xs in if x == b'\n' then [] else x ∷ rest

abbrev pub fields : Bytes → List Bytes
fields [] = []
fields (c ∷ rest) = map tabunescape (split_on b'\t' rest)

abbrev pub read_reply : Event → List Bytes
read_reply (written wire) = fields (line_of wire)
read_reply _ = []

no_tab : (xs : Bytes) → all framing_free xs ≡ true → has b'\t' xs ≡ false
unfolding has
no_tab [] h = refl
no_tab (x ∷ xs) h = ground (arith, no_tab xs)

split-join :
    (args : List Bytes) (a : Bytes)
    → split_on b'\t' (join_tab (map tabescape (a ∷ args))) ≡ map tabescape (a ∷ args)
split-join [] a =
    split_on-clean b'\t' (tabescape a) (no_tab (tabescape a) (tabescape-framing_free a))
split-join (b ∷ args) a =
    split_on-append b'\t' (tabescape a) (join_tab (map tabescape (b ∷ args)))
      (no_tab (tabescape a) (tabescape-framing_free a))
    ∙ ap (λ r. tabescape a ∷ r) (split-join args b)

line_of-clean : (xs rest : Bytes) → has b'\n' xs ≡ false → line_of (xs ++ b'\n' ∷ rest) ≡ xs
unfolding has
line_of-clean [] rest h = refl
line_of-clean (x ∷ xs) rest h = ground (arith, line_of-clean xs rest)

no_newline : (xs : Bytes) → all framing_free xs ≡ true → has b'\n' xs ≡ false
unfolding has
no_newline [] h = refl
no_newline (x ∷ xs) h = ground (arith, no_newline xs)

join-clean : (args : List Bytes) → has b'\n' (join_tab (map tabescape args)) ≡ false
unfolding has
join-clean [] = refl
join-clean (a ∷ []) = no_newline (tabescape a) (tabescape-framing_free a)
join-clean (a ∷ b ∷ args) = ground (
  arith,
  has-append b'\n' (tabescape a) (b'\t' ∷ join_tab (map tabescape (b ∷ args))),
  no_newline (tabescape a) (tabescape-framing_free a),
  join-clean (b ∷ args),
)

map-unescape : (args : List Bytes) → map tabunescape (map tabescape args) ≡ args
map-unescape [] = refl
map-unescape (a ∷ args) = rw (tabunescape-tabescape a, map-unescape args) refl

-- The fields of a reply are read back as they were, whatever bytes they hold, and nothing behind the
-- line is needed.
pub read_reply-reply :
    (c : ℕ) (a : Bytes) (args : List Bytes)
    → (c == b'\n') ≡ false
    → read_reply (reply (c ∷ []) (a ∷ args)) ≡ a ∷ args
unfolding reply
read_reply-reply c a args h =
    rw (h, line_of-clean (join_tab (map tabescape (a ∷ args))) [] (join-clean (a ∷ args)))
      (ap (map tabunescape) (split-join args a) ∙ map-unescape (a ∷ args))
