-- ===== src/OAuth/Token/Tests.antt =====
-- Runs of the mail tokens.
use mailu.Prelude.{◌≡◌, refl, true, false, none, some, length, Bytes, codes, decimal, is_digit}
use mailu.OAuth.Token.{python_int, is_grant_id}

-- a stand-in for the MAC
abbrev checksum : Bytes → Bytes
checksum p = decimal (length p)

abbrev sample_id : Bytes
sample_id = codes "abcdefghij0123456789_-"

python_int_runs :
    (python_int (codes " +1_0 ") ≡ some (false, 10))
    × (python_int (codes "-3") ≡ some (true, 3))
    × (python_int (codes "1__0") ≡ none)
    × (python_int (codes "1_") ≡ none)
unfolding python_int is_digit
python_int_runs = (refl, refl, refl, refl)

fits : is_grant_id sample_id ≡ true
unfolding is_grant_id is_digit
fits = refl
