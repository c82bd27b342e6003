-- ===== src/OAuth/Introspect/Active.antt =====
-- Which access tokens are active.
use mailu.Prelude.{
  ℕ, ◌≤◌, ◌<◌, ◌≡◌, refl, ap, ◌∙◌, ◌≢◌, true, Option, none, some, [], ◌∷◌, arith, Bytes,
}
use mailu.OAuth.{Crypto, Config, Grant, User, Db, find_user, find_grant}
use mailu.OAuth.Token
use mailu.OAuth.Token.{Kind, access, refresh}
use mailu.OAuth.Token.RoundTrip.{parse_kind}
use mailu.OAuth.Grants.{Call, Tokens}
use mailu.OAuth.Endpoint.{Form, tokens, refresh_tokens}
use mailu.OAuth.Endpoint.Rotation.{refresh_tokens-Refreshed, refreshed_found, refreshed_generation}
use mailu.OAuth.Introspect.{
  Claims, active, protocol_enabled, answer_user, answer_grant, answer_parsed, introspect,
}

-- the grant and the user behind an active token
pub record Active (crypto : Crypto) (now : ℕ) (protocol : Option Bytes) (raw_token : Bytes)
    (db : Db) : Type 0 where
  pub grant_id : Bytes
  pub g : Grant
  pub u : User
  pub parsed :
      Token.parse crypto.mac (some access) raw_token ≡ some (access, grant_id, g.token_generation)
  pub granted : find_grant grant_id db ≡ some g
  pub user : find_user g.user_email db ≡ some u
  pub unexpired : now < g.access_expires_at
  pub enabled : u.enabled ≡ true
  pub allowed : protocol_enabled protocol g u ≡ true

module _ (crypto : Crypto) (now : ℕ) (protocol : Option Bytes) (raw_token : Bytes) (db : Db) where
  user_inverse :
      (n : ℕ) (g : Grant) (o : Option User) (claims : Claims)
      → answer_user now protocol n g o ≡ active claims
      → (u : User) × (o ≡ some u)
        × (n ≡ g.token_generation)
        × (now < g.access_expires_at)
        × (u.enabled ≡ true)
        × (protocol_enabled protocol g u ≡ true)
  unfolding answer_user
  user_inverse n g none claims h = cc
  user_inverse n g (some u) claims h =
      (u, refl, ground arith, ground arith, ground arith, ground arith)

  grant_inverse :
      (k : Kind) (i : Bytes) (n : ℕ) (o : Option Grant) (claims : Claims)
      → Token.parse crypto.mac (some access) raw_token ≡ some (k, i, n)
      → find_grant i db ≡ o
      → answer_grant now protocol db n o ≡ active claims
      → Active crypto now protocol raw_token db
  unfolding answer_grant
  grant_inverse k i n none claims p f h = cc
  grant_inverse k i n (some g) claims p f h =
      let (u, user, same, unexpired, enabled, allowed) =
        user_inverse n g (find_user g.user_email db) claims h in
      record {
        grant_id = i;
        g = g;
        u = u;
        parsed = p ∙ ground (arith, parse_kind crypto.mac access k i n raw_token p);
        granted = f;
        user = user;
        unexpired = unexpired;
        enabled = enabled;
        allowed = allowed;
      }

  parsed_inverse :
      (o : Option (Kind × Bytes × ℕ)) (claims : Claims)
      → Token.parse crypto.mac (some access) raw_token ≡ o
      → answer_parsed now protocol db o ≡ active claims
      → Active crypto now protocol raw_token db
  unfolding answer_parsed
  parsed_inverse none claims p h = cc
  parsed_inverse (some (k, i, n)) claims p h = grant_inverse k i n (find_grant i db) claims p refl h

  nonempty :
      (xs : Bytes) (claims : Claims)
      → introspect crypto now protocol xs db ≡ active claims
      → answer_parsed now protocol db (Token.parse crypto.mac (some access) xs) ≡ active claims
  unfolding introspect
  nonempty [] claims h = cc
  nonempty (x ∷ xs) claims h = h

  -- the answer to a token that parses
  pub introspect_parsed :
      (o : Option (Kind × Bytes × ℕ))
      → Token.parse crypto.mac (some access) raw_token ≡ o
      → raw_token ≢ []
      → introspect crypto now protocol raw_token db ≡ answer_parsed now protocol db o
  unfolding introspect
  introspect_parsed o p h = go raw_token p h
    where
      go :
          (xs : Bytes)
          → Token.parse crypto.mac (some access) xs ≡ o
          → xs ≢ []
          → introspect crypto now protocol xs db ≡ answer_parsed now protocol db o
      go [] p h = absurd (h refl)
      go (x ∷ xs) p h = ap (answer_parsed now protocol db) p

  -- An access token is reported active only if it is of the current generation of a grant that has
  -- not expired, its user is enabled, and the grant's scope and the user's switches allow the protocol.
  pub introspect-Active :
      (claims : Claims)
      → introspect crypto now protocol raw_token db ≡ active claims
      → Active crypto now protocol raw_token db
  introspect-Active claims h =
      parsed_inverse (Token.parse crypto.mac (some access) raw_token) claims refl
        (nonempty raw_token claims h)

module _ (crypto : Crypto) (config : Config) where
  -- After a refresh, an access token of the generation that was refreshed is no longer active,
  -- although it may not have expired.
  pub introspect-refresh_tokens :
      (call : Call) (form : Form) (db db' : Db) (t : Tokens) (grant_id : Bytes) (n m now : ℕ)
      (protocol : Option Bytes) (raw_token : Bytes) (claims : Claims)
      → refresh_tokens crypto config call form db ≡ (tokens t, db')
      → Token.parse crypto.mac (some refresh) form.refresh_token ≡ some (refresh, grant_id, n)
      → Token.parse crypto.mac (some access) raw_token ≡ some (access, grant_id, m)
      → m ≤ n
      → introspect crypto now protocol raw_token db' ≢ active claims
  introspect-refresh_tokens call form db db' t grant_id n m now protocol raw_token claims e p a le
        h =
      let r = refresh_tokens-Refreshed crypto config call form db db' t e in
      let v = introspect-Active crypto now protocol raw_token db' claims h in
      ground (
        arith,
        r.parsed,
        p,
        a,
        v.parsed,
        v.granted,
        refreshed_found crypto config call form db db' t r,
        refreshed_generation crypto config call form db db' t r,
      )
