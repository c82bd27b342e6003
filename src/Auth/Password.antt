-- ===== src/Auth/Password.antt =====
-- `User.check_password` and `Token.check_password` of core/admin/mailu/models.py.
pub mod Cache
use mailu.Prelude.{
  Bool, true, false, ◌&&◌, Option, none, some, List, [], ◌∷◌, ◌==◌, if◌then◌else◌, length, any,
  Bytes, codes, bytes_eq, split_on,
}
use mailu.Mail.{Result, raised, returned}
use mailu.Auth.{Passlib, AppToken, Account}

-- `list[3]`
unfoldable pub fourth : List Bytes → Option Bytes
fourth (a ∷ b ∷ c ∷ d ∷ rest) = some d
fourth parts = none

-- the salt of a hash of five fields
unfoldable pub current_salt : Bytes → Option Bytes
current_salt password =
    let parts = split_on b'$' password in if length parts == 5 then fourth parts else none

unfoldable pub starts : Bytes → Bytes → Bool
starts [] text = true
starts (p ∷ ps) [] = false
starts (p ∷ ps) (c ∷ cs) = c == p && starts ps cs

abbrev pub schemes : List Bytes
schemes =
    codes "{PBKDF2}"
    ∷ codes "{BLF-CRYPT}"
    ∷ codes "{SHA512-CRYPT}"
    ∷ codes "{SHA256-CRYPT}"
    ∷ codes "{MD5-CRYPT}"
    ∷ codes "{CRYPT}"
    ∷ []

-- `reference.split('}', 1)[1]` of a text that holds a brace
unfoldable pub behind_brace : Bytes → Bytes
behind_brace [] = []
behind_brace (c ∷ cs) = let rest = behind_brace cs in if c == b'}' then cs else rest

unfoldable pub reference : Bytes → Bytes
reference password =
    if any (λ scheme. starts scheme password) schemes then behind_brace password else password

abbrev or_else : Option Bytes → Bytes → Bytes
or_else none text = text
or_else (some hash) text = hash

module _ (passlib : Passlib) where
  -- what is stored after a verification; the new entry of the cache wants a salt in the hash
  remember : Bytes → Account → Bytes → Bool → Option Bytes → Result (Bool × Account)
  remember password user stored false salt = returned (false, record user { password = stored })
  remember password user stored true none = raised
  remember password user stored true (some salt) =
      returned (
        true,
        record user { password = stored; cached = some (salt, passlib.pbkdf2_hash password) },
      )

  -- the verification against the stored hash
  unfoldable pub verify_stored : Bytes → Account → Result (Bool × Account)
  unfolding remember
  verify_stored password user =
      let (result, new_hash) = passlib.verify_and_update password (reference user.password) in
      let stored = or_else new_hash user.password in
      remember password user stored result (fourth (split_on b'$' stored))

  check_cached : Bytes → Account → Option (Bytes × Bytes) → Option Bytes → Result (Bool × Account)
  unfolding verify_stored
  check_cached password user (some (cache_salt, cache_hash)) (some salt) =
      if bytes_eq cache_salt salt
      then returned (passlib.pbkdf2_verify password cache_hash, user)
      else verify_stored password (record user { cached = none })
  check_cached password user cached salt = verify_stored password user

  unfoldable pub check_password : Bytes → Account → Result (Bool × Account)
  unfolding check_cached
  check_password [] user = returned (false, user)
  check_password (c ∷ cs) user = check_cached (c ∷ cs) user user.cached (current_salt user.password)

  -- `Token.check_password`, which replaces an old hash
  unfoldable pub check_token : Bytes → AppToken → Bool × AppToken
  check_token password token =
      if starts (codes "$5$") token.hash
      then (if passlib.sha256_verify password token.hash
          then (true, record token { hash = passlib.pbkdf2_hash password })
          else (false, token))
      else (passlib.pbkdf2_verify password token.hash, token)

  -- the first token that the password is of, and the tokens after the check
  unfoldable pub find_token : Bytes → List AppToken → Option AppToken × List AppToken
  find_token password [] = (none, [])
  find_token password (token ∷ tokens) =
      let (rest, kept) = find_token password tokens in
      let (matched, now) = check_token password token in
      if matched then (some now, now ∷ tokens) else (rest, token ∷ kept)
