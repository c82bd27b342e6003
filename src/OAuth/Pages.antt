-- ===== src/OAuth/Pages.antt =====
-- core/admin/mailu/ui/views/tokens.py: the buttons on the page of a user's mail apps, behind the check
-- of the owner and the confirmation. A row is named by its grant id in place of the integer key.
use mailu.Prelude.{ℕ, Option, none, some, Bytes}
use mailu.OAuth.{Db, find_grant, delete_grant, put_grant}
use mailu.OAuth.Grants.{force_reauthentication}

-- none is the 404
unfoldable pub oauth2_token_revoke : Bytes → Db → Option Db
oauth2_token_revoke grant_id db = elim (find_grant grant_id db) [
  | none ↦ none
  | some g ↦ some (delete_grant g.grant_id db)
]

unfoldable pub oauth2_token_reauthenticate : ℕ → Bytes → Db → Option Db
oauth2_token_reauthenticate now grant_id db = elim (find_grant grant_id db) [
  | none ↦ none
  | some g ↦ some (put_grant (force_reauthentication now g) db)
]
