-- ===== src/LogFilter/Writer.antt =====
-- The writer thread, `_forward_output`: one item of the queue is written to its descriptor. What the
-- operating system answers is a list of outcomes, one for each call of `write`; where the list ends
-- the thread is still waiting.
use mailu.Prelude.{
  ℕ, zero, suc, ◌≡◌, refl, ap, ◌∙◌, ◌≢◌, List, [], ◌∷◌, ◌++◌, append_assoc, take, drop,
  take-append-drop, Bytes,
}

-- the answers of `write`, with that of the `select` behind an EAGAIN
pub data Outcome : Type 0 where
  written : ℕ → Outcome
  interrupted : Outcome
  again : Outcome
  select_failed : Outcome
  failed : Outcome

pub data Status : Type 0 where
  done : Status
  sink_disabled : Status
  waiting : Status

-- the bytes that reached the sink, how the loop over `remaining` ended, and the answers left
pub record Written : Type 0 where
  pub bytes : Bytes
  pub status : Status
  pub answers : List Outcome

abbrev ended : Status → List Outcome → Written
ended status answers = record { bytes = []; status = status; answers = answers }

abbrev behind : Bytes → Written → Written
behind bytes w = record w { bytes = bytes ++ w.bytes }

-- `while remaining`
pub write_all : List Outcome → Bytes → Written
write_all answers [] = ended done answers
write_all [] (b ∷ bs) = ended waiting []
write_all (written n ∷ answers) (b ∷ bs) = elim n [
  | zero ↦ ended sink_disabled answers
  | suc m ↦ behind (take (suc m) (b ∷ bs)) (write_all answers (drop (suc m) (b ∷ bs)))
]
write_all (interrupted ∷ answers) (b ∷ bs) = write_all answers (b ∷ bs)
write_all (again ∷ answers) (b ∷ bs) = write_all answers (b ∷ bs)
write_all (select_failed ∷ answers) (b ∷ bs) = ended sink_disabled answers
write_all (failed ∷ answers) (b ∷ bs) = ended sink_disabled answers

-- the rest of the data, which the sink has not seen
pub record Prefix (data_bytes : Bytes) (w : Written) : Type 0 where
  pub unseen : Bytes
  pub whole : w.bytes ++ unseen ≡ data_bytes
  pub complete : w.status ≡ done → unseen ≡ []

ended-Prefix :
    (b : ℕ) (bs : Bytes) (status : Status) (answers : List Outcome)
    → status ≢ done
    → Prefix (b ∷ bs) (ended status answers)
ended-Prefix b bs status answers h = record {
  unseen = b ∷ bs;
  whole = refl;
  complete = λ e. absurd (h e);
}

behind-Prefix :
    (n : ℕ) (xs : Bytes) (w : Written) → Prefix (drop n xs) w → Prefix xs (behind (take n xs) w)
behind-Prefix n xs w p = record {
  unseen = p.unseen;
  whole =
      append_assoc (take n xs) w.bytes p.unseen
      ∙ ap (λ r. take n xs ++ r) p.whole
      ∙ take-append-drop n xs;
  complete = p.complete;
}

-- Short writes, signals and full pipes reorder and repeat nothing: the sink has seen a prefix of the
-- item, and all of it when the loop ends by itself.
pub write_all-Prefix :
    (answers : List Outcome) (bytes : Bytes) → Prefix bytes (write_all answers bytes)
unfolding write_all
write_all-Prefix answers [] = record { unseen = []; whole = refl; complete = λ e. refl }
write_all-Prefix [] (b ∷ bs) = ended-Prefix b bs waiting [] (cc)
write_all-Prefix (written zero ∷ answers) (b ∷ bs) = ended-Prefix b bs sink_disabled answers (cc)
write_all-Prefix (written (suc m) ∷ answers) (b ∷ bs) =
    behind-Prefix (suc m) (b ∷ bs) (write_all answers (drop (suc m) (b ∷ bs)))
      (write_all-Prefix answers (drop (suc m) (b ∷ bs)))
write_all-Prefix (interrupted ∷ answers) (b ∷ bs) = write_all-Prefix answers (b ∷ bs)
write_all-Prefix (again ∷ answers) (b ∷ bs) = write_all-Prefix answers (b ∷ bs)
write_all-Prefix (select_failed ∷ answers) (b ∷ bs) = ended-Prefix b bs sink_disabled answers (cc)
write_all-Prefix (failed ∷ answers) (b ∷ bs) = ended-Prefix b bs sink_disabled answers (cc)
