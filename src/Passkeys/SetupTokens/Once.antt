-- ===== src/Passkeys/SetupTokens/Once.antt =====
-- A link is good for one account, once, until it expires or another one is issued.
use mailu.Prelude.{
  ℕ, ◌+◌, ◌≤◌, ◌<◌, ◌≡◌, refl, Bool, true, false, not, ◌||◌, none, some, List, [], ◌∷◌, arith,
  filter, first, any, all, Bytes, bytes_eq, bytes_eq_refl,
}
use mailu.Passkeys.SetupTokens.{
  AccountSetupToken, has_hash, of_user, matches, issue, lookup, consume,
}

filter-none :
    (p : AccountSetupToken → Bool) (rows : List AccountSetupToken)
    → any p rows ≡ false
    → filter p rows ≡ []
filter-none p [] h = refl
filter-none p (r ∷ rows) h = ground (arith, filter-none p rows)

any-filter :
    (p q : AccountSetupToken → Bool) (rows : List AccountSetupToken)
    → any p rows ≡ false
    → any p (filter q rows) ≡ false
any-filter p q [] h = refl
any-filter p q (r ∷ rows) h = ground (arith, any-filter p q rows)

any-matches :
    (token_hash : Bytes) (now : ℕ) (rows : List AccountSetupToken)
    → any (has_hash token_hash) rows ≡ false
    → any (matches token_hash now) rows ≡ false
any-matches token_hash now [] h = refl
any-matches token_hash now (r ∷ rows) h = ground (arith, any-matches token_hash now rows)

first-any :
    (p : AccountSetupToken → Bool) (rows : List AccountSetupToken)
    → any p rows ≡ false
    → first p rows ≡ none
first-any p [] h = refl
first-any p (r ∷ rows) h = ground (arith, first-any p rows)

-- the rows of a hash are all of one user
abbrev pub owns : Bytes → Bytes → AccountSetupToken → Bool
owns token_hash email row = not (has_hash token_hash row) || of_user email row

replaced :
    (token_hash email : Bytes) (rows : List AccountSetupToken)
    → all (owns token_hash email) rows ≡ true
    → first (has_hash token_hash) (filter (λ row. not (of_user email row)) rows) ≡ none
replaced token_hash email [] h = refl
replaced token_hash email (r ∷ rows) h = ground (arith, replaced token_hash email rows)

lookup-absent :
    (sha256 : Bytes → Bytes) (now : ℕ) (raw : Bytes) (table : List AccountSetupToken)
    → any (has_hash (sha256 raw)) table ≡ false
    → lookup sha256 now raw table ≡ none
unfolding lookup
lookup-absent sha256 now raw table h = ground (arith, first-any (has_hash (sha256 raw)) table)

consume-absent :
    (sha256 : Bytes → Bytes) (now : ℕ) (raw : Bytes) (table : List AccountSetupToken)
    → any (has_hash (sha256 raw)) table ≡ false
    → (consume sha256 now raw table).1 ≡ false
unfolding consume
consume-absent sha256 now raw table h =
    ground (arith, filter-none (matches (sha256 raw) now) table, any-matches (sha256 raw) now table)

module _ (sha256 : Bytes → Bytes) (now : ℕ) (raw email : Bytes) (lifetime : ℕ)
    (table : List AccountSetupToken) where
  -- what a link is good for
  pub record Link : Type 0 where
    pub found :
        (at : ℕ)
        → at < now + lifetime
        → (row : AccountSetupToken) × (lookup sha256 at raw
              (issue sha256 now raw email lifetime table)
            ≡ some row)
          × (row.user_email ≡ email)
    pub consumed :
        (at : ℕ)
        → at < now + lifetime
        → (consume sha256 at raw (issue sha256 now raw email lifetime table)).1 ≡ true
    pub late :
        (at : ℕ)
        → now + lifetime ≤ at
        → (lookup sha256 at raw (issue sha256 now raw email lifetime table) ≡ none)
          × ((consume sha256 at raw (issue sha256 now raw email lifetime table)).1 ≡ false)
    pub spent :
        (at later : ℕ)
        → at < now + lifetime
        → let rest = (consume sha256 at raw (issue sha256 now raw email lifetime table)).0 in
          (lookup sha256 later raw rest ≡ none) × ((consume sha256 later raw rest).1 ≡ false)
    pub older :
        (token : Bytes)
        → bytes_eq (sha256 raw) (sha256 token) ≡ false
        → all (owns (sha256 token) email) table ≡ true
        → (at : ℕ) → lookup sha256 at token (issue sha256 now raw email lifetime table) ≡ none

  -- behind the consumption of the new link no row has its hash
  consumed-absent :
      (at : ℕ)
      → at < now + lifetime
      → any (has_hash (sha256 raw)) table ≡ false
      → any
          (has_hash (sha256 raw))
          (consume sha256 at raw (issue sha256 now raw email lifetime table)).0
        ≡ false
  unfolding consume issue
  consumed-absent at early h =
      let others = filter (λ row. not (of_user email row)) table in
      ground (
        arith,
        bytes_eq_refl (sha256 raw),
        any-filter (has_hash (sha256 raw)) (λ row. not (matches (sha256 raw) at row)) others,
        any-filter (has_hash (sha256 raw)) (λ row. not (of_user email row)) table,
      )

  -- A new link, whose token no row has yet, is found and consumed until it expires, and not after that; once
  -- it was consumed it is found and consumed no more; and the links that the user had before are void.
  pub issue-Link : any (has_hash (sha256 raw)) table ≡ false → Link
  unfolding issue lookup consume
  issue-Link h =
      let others = filter (λ row. not (of_user email row)) table in
      let fresh : any (has_hash (sha256 raw)) others ≡ false =
        any-filter (has_hash (sha256 raw)) (λ row. not (of_user email row)) table h in
      let row : AccountSetupToken = record {
        token_hash = sha256 raw;
        user_email = email;
        expires_at = now + lifetime;
      } in
      let unmatched : (at : ℕ) → filter (matches (sha256 raw) at) others ≡ [] = λ at.
        filter-none (matches (sha256 raw) at) others (any-matches (sha256 raw) at others fresh) in
      record {
        found = λ at early. (row, ground (arith, bytes_eq_refl (sha256 raw)), refl);
        consumed = λ at early. ground (arith, bytes_eq_refl (sha256 raw), unmatched at);
        late = λ at passed. (
          ground (arith, bytes_eq_refl (sha256 raw)),
          ground (arith, bytes_eq_refl (sha256 raw), unmatched at),
        );
        spent = λ at later early.
            let rest = (consume sha256 at raw (issue sha256 now raw email lifetime table)).0 in
            (
              lookup-absent sha256 later raw rest (consumed-absent at early h),
              consume-absent sha256 later raw rest (consumed-absent at early h),
            );
        older = λ token other own at. ground (arith, replaced (sha256 token) email table);
      }
