-- ===== src/OAuth/Endpoint/Codes.antt =====
-- The exchange of an authorization code.
use mailu.Prelude.{
  ◌<◌, ◌≡◌, refl, sym, ap, ◌∙◌, ◌≢◌, true, Option, none, some, arith, ◌∷◌, Option-cases, inl, inr,
  bytes_eq_refl, Bytes, bytes_eq→eq,
}
use mailu.OAuth.{
  Crypto, Config, AuthorizationCode, Db, client_id, find_user, find_code, delete_code,
}
use mailu.OAuth.Store.{find_code-delete_code, find_code-hash}
use mailu.OAuth.Grants.{Call, Tokens, new_grant, access_expiry, issue}
use mailu.OAuth.Endpoint.{
  Form, tokens, invalid_grant, crashed, is_text, calculated, code_is_valid, code_of_client,
  user_is_enabled, issue_new, exchange_row, exchange,
}

module _ (crypto : Crypto) (config : Config) (call : Call) where
  -- a new grant with a refresh token has a refresh expiry
  new_grant-issues :
      (email scope : Bytes)
      → issue crypto config call scope (new_grant config call email client_id scope) ≢ none
  unfolding issue new_grant access_expiry
  new_grant-issues email scope e = ground arith

  -- what an exchange that returns tokens has found and done
  pub record Exchanged (form : Form) (db : Db) (db' : Db) : Type 0 where
    pub row : AuthorizationCode
    pub found : find_code (crypto.code_hash form.code) db ≡ some row
    pub own : row.client ≡ client_id
    pub unexpired : call.now < row.expires_at
    pub redirected : form.redirect_uri ≡ some row.redirect_uri
    pub challenged : calculated crypto form.code_verifier ≡ row.code_challenge
    pub enabled : user_is_enabled (find_user row.user_email db) ≡ true
    pub spent : find_code (crypto.code_hash form.code) db' ≡ none

  issue_new_inverse :
      (db db' : Db) (row : AuthorizationCode) (email : Bytes) (t : Tokens)
      → issue_new crypto config call db row email ≡ (tokens t, db')
      → db'.code_rows ≡ (delete_code row.hash db).code_rows
  unfolding issue_new delete_code
  issue_new_inverse db db' row email t e = ground arith

  find_code_rows :
      (hash : Bytes) (a b : Db) → a.code_rows ≡ b.code_rows → find_code hash a ≡ find_code hash b
  unfolding find_code
  find_code_rows hash a b e = rw e

  is_text→eq : (o : Option Bytes) (text : Bytes) → is_text o text ≡ true → o ≡ some text
  is_text→eq none text h = cc
  is_text→eq (some given) text h = ap some (bytes_eq→eq given text h)

  exchange_row_inverse :
      (form : Form) (db db' : Db) (row : AuthorizationCode) (t : Tokens)
      → exchange_row crypto config call form db (some row) ≡ (tokens t, db')
      → (code_is_valid crypto call.now form row ≡ true)
        × (user_is_enabled (find_user row.user_email db) ≡ true)
        × (issue_new crypto config call db row row.user_email ≡ (tokens t, db'))
  unfolding exchange_row
  exchange_row_inverse form db db' row t e = ground arith

  code_of_client_inverse :
      (o : Option AuthorizationCode) (row : AuthorizationCode)
      → code_of_client o ≡ some row
      → (o ≡ some row) × (row.client ≡ client_id)
  code_of_client_inverse none row e = cc
  code_of_client_inverse (some x) row e =
      (ground arith, ground (arith, bytes_eq→eq x.client client_id))

  Exchanged-row :
      (form : Form) (db db' : Db) (t : Tokens) (o : Option AuthorizationCode)
      → code_of_client (find_code (crypto.code_hash form.code) db) ≡ o
      → exchange_row crypto config call form db o ≡ (tokens t, db')
      → Exchanged form db db'
  Exchanged-row form db db' t none o e = absurd (unfold exchange_row in ground arith)
  Exchanged-row form db db' t (some row) o e =
      let (found, own) = code_of_client_inverse (find_code (crypto.code_hash form.code) db) row o in
      let (valid, enabled, issued) = exchange_row_inverse form db db' row t e in
      record {
        row = row;
        found = found;
        own = own;
        unexpired = unfold code_is_valid in ground arith;
        redirected =
            is_text→eq form.redirect_uri row.redirect_uri (unfold code_is_valid in ground arith);
        challenged =
            bytes_eq→eq (calculated crypto form.code_verifier) row.code_challenge
              (unfold code_is_valid in ground arith);
        enabled = enabled;
        spent =
            find_code_rows (crypto.code_hash form.code) db' (delete_code row.hash db)
              (issue_new_inverse db db' row row.user_email t issued)
            ∙ ap (λ k. find_code k (delete_code row.hash db))
                (sym (find_code-hash (crypto.code_hash form.code) db found))
            ∙ find_code-delete_code row.hash db;
      }

  -- An authorization code is exchanged for tokens only before it expires, at the redirect URI and for
  -- the client that it was made for, with the verifier of its challenge and for an enabled user; and
  -- it is gone then.
  pub exchange-Exchanged :
      (form : Form) (db db' : Db) (t : Tokens)
      → exchange crypto config call form db ≡ (tokens t, db')
      → Exchanged form db db'
  unfolding exchange
  exchange-Exchanged form db db' t e = Exchanged-row form db db' t _ refl e

  exchange_row-crashed :
      (form : Form) (db : Db) (o : Option AuthorizationCode)
      → (exchange_row crypto config call form db o).0 ≢ crashed
  unfolding exchange_row issue_new
  exchange_row-crashed form db none h = cc
  exchange_row-crashed form db (some row) h =
      ground (arith, new_grant-issues row.user_email row.scope)

  issue_new-issues :
      (db : Db) (row : AuthorizationCode) (email : Bytes)
      → (t : Tokens) × (db' : Db) × (issue_new crypto config call db row email ≡ (tokens t, db'))
  unfolding issue_new
  issue_new-issues db row email =
      elim (Option-cases
        (issue crypto config call row.scope (new_grant config call email client_id row.scope))) [
          | inl bad ↦ absurd (new_grant-issues email row.scope bad)
          | inr ((t, g), e) ↦ (
            t,
            record (delete_code row.hash db) { grants = g ∷ db.grants },
            rw (issue_new, e) refl,
          )
        ]

  -- A code that is valid for the form, of this client and of an enabled user gives tokens.
  pub exchange-issues :
      (form : Form) (db : Db) (row : AuthorizationCode)
      → find_code (crypto.code_hash form.code) db ≡ some row
      → row.client ≡ client_id
      → code_is_valid crypto call.now form row ≡ true
      → user_is_enabled (find_user row.user_email db) ≡ true
      → (t : Tokens) × (db' : Db) × (exchange crypto config call form db ≡ (tokens t, db'))
  unfolding exchange exchange_row
  exchange-issues form db row found own valid enabled =
      let (t, db', e) = issue_new-issues db row row.user_email in
      let own_row : code_of_client (some row) ≡ some row =
        ground (arith, own, bytes_eq_refl client_id) in
      (
        t,
        db',
        ap (λ o. exchange_row crypto config call form db (code_of_client o)) found
            ∙ ap (exchange_row crypto config call form db) own_row
            ∙ ground (arith, valid, enabled, e),
      )

  -- Whatever the form and the tables, the exchange ends with tokens or an error of the protocol.
  pub exchange-ne-crashed :
      (form : Form) (db : Db) → (exchange crypto config call form db).0 ≢ crashed
  unfolding exchange
  exchange-ne-crashed form db = exchange_row-crashed form db _

module _ (crypto : Crypto) (config : Config) (call again : Call) where
  -- A code that gave tokens once gives none again, whatever the second form holds beside it, and the
  -- second attempt changes nothing.
  pub exchange_twice :
      (form other : Form) (db db' : Db) (t : Tokens)
      → exchange crypto config call form db ≡ (tokens t, db')
      → other.code ≡ form.code
      → exchange crypto config again other db' ≡ (invalid_grant, db')
  unfolding exchange
  exchange_twice form other db db' t e same =
      let r = exchange-Exchanged crypto config call form db db' t e in
      ap (λ o. exchange_row crypto config again other db' (code_of_client o))
        (ap (λ c. find_code (crypto.code_hash c) db') same ∙ r.spent)
      ∙ (unfold exchange_row in refl)
