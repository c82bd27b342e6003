-- ===== src/Passkeys/SetupTokens.antt =====
-- core/admin/mailu/setup_tokens.py: the links that set up an account. The SHA-256 of a token in
-- hexadecimal and the random bits are arguments, and times are seconds.
pub mod Once
use mailu.Prelude.{
  ℕ, ◌+◌, Bool, not, ◌&&◌, Option, none, some, List, ◌∷◌, ltb, ◌==◌, if◌then◌else◌, length, filter,
  first, Bytes, bytes_eq,
}

-- a row of the table
pub record AccountSetupToken : Type 0 where
  pub token_hash : Bytes
  pub user_email : Bytes
  pub expires_at : ℕ

abbrev pub has_hash : Bytes → AccountSetupToken → Bool
has_hash token_hash row = bytes_eq row.token_hash token_hash

abbrev pub of_user : Bytes → AccountSetupToken → Bool
of_user email row = bytes_eq row.user_email email

-- `issue`: the table behind it; the token and its expiry are what it was called with
unfoldable pub issue :
    (Bytes → Bytes) → ℕ → Bytes → Bytes → ℕ → List AccountSetupToken → List AccountSetupToken
issue sha256 now raw_token email lifetime table =
    record { token_hash = sha256 raw_token; user_email = email; expires_at = now + lifetime }
    ∷ filter (λ row. not (of_user email row)) table

unfoldable pub lookup :
    (Bytes → Bytes) → ℕ → Bytes → List AccountSetupToken → Option AccountSetupToken
lookup sha256 now raw_token table = elim (first (has_hash (sha256 raw_token)) table) [
  | none ↦ none
  | some grant ↦ if ltb now grant.expires_at then some grant else none
]

abbrev pub matches : Bytes → ℕ → AccountSetupToken → Bool
matches token_hash now row = has_hash token_hash row && ltb now row.expires_at

-- `consume`: the table behind it, and whether just one row was deleted
unfoldable pub consume :
    (Bytes → Bytes) → ℕ → Bytes → List AccountSetupToken → List AccountSetupToken × Bool
consume sha256 now raw_token table = (
  filter (λ row. not (matches (sha256 raw_token) now row)) table,
  length (filter (matches (sha256 raw_token) now) table) == 1,
)
