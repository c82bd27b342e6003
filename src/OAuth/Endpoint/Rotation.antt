-- ===== src/OAuth/Endpoint/Rotation.antt =====
-- The rotation of refresh tokens: a token is good for one refresh, and presenting it again ends the
-- grant.
use mailu.Prelude.{
  ℕ, ◌+◌, ◌<◌, ◌≡◌, refl, ap, ◌∙◌, subst, true, false, Option, none, some, arith, Bytes,
  bytes_eq_refl, bytes_eq→eq,
}
use mailu.OAuth.{
  Crypto, Config, Grant, Db, client_id, find_user, find_grant, delete_grant, put_grant,
}
use mailu.OAuth.Token
use mailu.OAuth.Token.{Kind, refresh}
use mailu.OAuth.Token.RoundTrip.{parse_kind}
use mailu.OAuth.Store.{find_grant-delete_grant, find_grant-id, find_grant-put_grant}
use mailu.OAuth.Grants.{Call, Tokens, touch_grant, issue}
use mailu.OAuth.Grants.Issue.{Issued, issue-Issued}
use mailu.OAuth.Endpoint.{
  Form, tokens, invalid_grant, refresh_current, refresh_row, refresh_parsed, refresh_tokens,
  of_client, is_expired, user_is_enabled,
}

module _ (crypto : Crypto) (config : Config) where
  abbrev pub presented : Form → Option (Kind × Bytes × ℕ)
  presented form = Token.parse crypto.mac (some refresh) form.refresh_token

  of_client-mailu :
      (o : Option Grant) (g : Grant) → o ≡ some g → g.client ≡ client_id → of_client o ≡ some g
  of_client-mailu none g e c = cc
  of_client-mailu (some h) g e c = ground (arith, bytes_eq_refl client_id)

  -- the grant that a presented token names
  module _ (call : Call) (form : Form) (db : Db) (grant_id : Bytes) (n : ℕ) (g : Grant)
      (parsed : presented form ≡ some (refresh, grant_id, n))
      (found : find_grant grant_id db ≡ some g) (own : g.client ≡ client_id) where
    pub refresh_tokens-row :
        refresh_tokens crypto config call form db ≡ refresh_row crypto config call db n (some g)
    unfolding refresh_tokens
    refresh_tokens-row =
        ap (refresh_parsed crypto config call db) parsed
        ∙ ap (refresh_row crypto config call db n)
            (of_client-mailu (find_grant grant_id db) g found own)

    refresh_tokens-old :
        n < g.token_generation
        → refresh_tokens crypto config call form db ≡ (invalid_grant, delete_grant grant_id db)
    refresh_tokens-old h =
        refresh_tokens-row ∙ (unfold refresh_row in ground (arith, find_grant-id grant_id db found))

    -- Presenting a refresh token of an earlier generation of a grant is refused, and deletes the
    -- grant: no token of the family is good any more.
    pub refresh_tokens-replay :
        n < g.token_generation
        → ((refresh_tokens crypto config call form db).0 ≡ invalid_grant)
          × (find_grant grant_id (refresh_tokens crypto config call form db).1 ≡ none)
    refresh_tokens-replay h = (
      ap (λ r. r.0) (refresh_tokens-old h),
      ap (λ r. find_grant grant_id r.1) (refresh_tokens-old h)
          ∙ find_grant-delete_grant grant_id db,
    )

  -- what a refresh that returns tokens has found and done
  pub record Refreshed (call : Call) (form : Form) (db : Db) (t : Tokens) (db' : Db) : Type 0 where
    pub grant_id : Bytes
    pub g : Grant
    pub h : Grant
    pub parsed : presented form ≡ some (refresh, grant_id, g.token_generation)
    pub found : find_grant grant_id db ≡ some g
    pub own : g.client ≡ client_id
    pub fresh : is_expired config call.now g ≡ false
    pub enabled : user_is_enabled (find_user g.user_email db) ≡ true
    pub issued :
        issue crypto config call g.scope
          (touch_grant call (record g { token_generation = g.token_generation + 1 }))
        ≡ some (t, h)
    pub committed : db' ≡ put_grant h db

  current_inverse :
      (call : Call) (db db' : Db) (t : Tokens) (g : Grant)
      → (o : Option (Tokens × Grant))
      → issue crypto config call g.scope
          (touch_grant call (record g { token_generation = g.token_generation + 1 }))
        ≡ o
      → refresh_current crypto config call db g ≡ (tokens t, db')
      → (h : Grant) × (o ≡ some (t, h))
        × (db' ≡ put_grant h db)
        × (is_expired config call.now g ≡ false)
        × (user_is_enabled (find_user g.user_email db) ≡ true)
  unfolding refresh_current
  current_inverse call db db' t g none i e = absurd (ground arith)
  current_inverse call db db' t g (some (t', h)) i e =
      (h, ground arith, ground arith, ground arith, ground arith)

  row_inverse :
      (call : Call) (db db' : Db) (t : Tokens) (n : ℕ) (g : Grant)
      → refresh_row crypto config call db n (some g) ≡ (tokens t, db')
      → (n ≡ g.token_generation) × (refresh_current crypto config call db g ≡ (tokens t, db'))
  unfolding refresh_row
  row_inverse call db db' t n g e = ground arith

  of_client_inverse :
      (o : Option Grant) (g : Grant) → of_client o ≡ some g → (o ≡ some g) × (g.client ≡ client_id)
  of_client_inverse none g e = cc
  of_client_inverse (some h) g e = (ground arith, ground (arith, bytes_eq→eq h.client client_id))

  Refreshed-row :
      (call : Call) (form : Form) (db db' : Db) (t : Tokens) (k : Kind) (i : Bytes) (n : ℕ)
      → presented form ≡ some (k, i, n)
      → (o : Option Grant) → of_client (find_grant i db) ≡ o
      → refresh_row crypto config call db n o ≡ (tokens t, db')
      → Refreshed call form db t db'
  Refreshed-row call form db db' t k i n p none o e = absurd (unfold refresh_row in ground arith)
  Refreshed-row call form db db' t k i n p (some g) o e =
      let (same, current) = row_inverse call db db' t n g e in
      let (found, own) = of_client_inverse (find_grant i db) g o in
      let (h, issued, committed, fresh, enabled) = current_inverse call db db' t g _ refl current in
      record {
        grant_id = i;
        g = g;
        h = h;
        parsed = p ∙ ground (arith, parse_kind crypto.mac refresh k i n form.refresh_token p);
        found = found;
        own = own;
        fresh = fresh;
        enabled = enabled;
        issued = issued;
        committed = committed;
      }

  Refreshed-parsed :
      (call : Call) (form : Form) (db db' : Db) (t : Tokens)
      → (o : Option (Kind × Bytes × ℕ)) → presented form ≡ o
      → refresh_parsed crypto config call db o ≡ (tokens t, db')
      → Refreshed call form db t db'
  Refreshed-parsed call form db db' t none p e = absurd (unfold refresh_parsed in ground arith)
  Refreshed-parsed call form db db' t (some (k, i, n)) p e =
      Refreshed-row call form db db' t k i n p _ refl (unfold refresh_parsed in e)

  -- A refresh returns tokens only for a current token of a grant of this client that has not expired
  -- and whose user is enabled.
  pub refresh_tokens-Refreshed :
      (call : Call) (form : Form) (db db' : Db) (t : Tokens)
      → refresh_tokens crypto config call form db ≡ (tokens t, db')
      → Refreshed call form db t db'
  unfolding refresh_tokens
  refresh_tokens-Refreshed call form db db' t e =
      Refreshed-parsed call form db db' t (presented form) refl e

  -- the row that a refresh leaves
  module _ (call : Call) (form : Form) (db db' : Db) (t : Tokens)
      (r : Refreshed call form db t db') where
    pub refreshed_Issued :
        Issued crypto config call r.g.scope
          (touch_grant call (record r.g { token_generation = r.g.token_generation + 1 }))
          t
          r.h
    refreshed_Issued =
        issue-Issued crypto config call r.g.scope
          (touch_grant call (record r.g { token_generation = r.g.token_generation + 1 })) t r.h
          r.issued

    pub refreshed_id : r.h.grant_id ≡ r.grant_id
    unfolding touch_grant
    refreshed_id = refreshed_Issued.same_id ∙ find_grant-id r.grant_id db r.found

    pub refreshed_found : find_grant r.grant_id db' ≡ some r.h
    refreshed_found =
        subst (λ i. find_grant i db' ≡ some r.h) refreshed_id
          (ap (find_grant r.h.grant_id) r.committed
            ∙ find_grant-put_grant r.h db (ap (λ i. find_grant i db) refreshed_id ∙ r.found))

    pub refreshed_own : r.h.client ≡ client_id
    unfolding touch_grant
    refreshed_own = refreshed_Issued.same_client ∙ r.own

    pub refreshed_generation : r.h.token_generation ≡ r.g.token_generation + 1
    unfolding touch_grant
    refreshed_generation = refreshed_Issued.same_generation

  -- A refresh token that gave tokens once gives none again: presented a second time, by whoever holds
  -- it and whenever, it is refused and its grant is deleted.
  pub refresh_tokens_twice :
      (call again : Call) (form : Form) (db db' : Db) (t : Tokens)
      → refresh_tokens crypto config call form db ≡ (tokens t, db')
      → ((refresh_tokens crypto config again form db').0 ≡ invalid_grant)
        × ((grant_id : Bytes) × (n : ℕ) × (presented form ≡ some (refresh, grant_id, n))
            × (find_grant grant_id (refresh_tokens crypto config again form db').1 ≡ none))
  refresh_tokens_twice call again form db db' t e =
      let r = refresh_tokens-Refreshed call form db db' t e in
      let (refused, gone) =
        refresh_tokens-replay again form db' r.grant_id r.g.token_generation r.h r.parsed
          (refreshed_found call form db db' t r) (refreshed_own call form db db' t r)
          (omega (arith, refreshed_generation call form db db' t r)) in
      (refused, (r.grant_id, r.g.token_generation, r.parsed, gone))
