-- ===== src/OAuth/Introspect/Ended.antt =====
-- Access tokens that a revocation or a changed password has ended.
use mailu.Prelude.{
  first, ℕ, ◌≤◌, ◌≡◌, ◌≢◌, Option, none, some, List, [], ◌∷◌, map, arith, if◌then◌else◌, Bytes,
  bytes_eq, bytes_eq_refl,
}
use mailu.OAuth.{Crypto, Grant, Db, client_id, find_grant, delete_grant}
use mailu.OAuth.Token
use mailu.OAuth.Token.{Kind, access}
use mailu.OAuth.Store.{find_grant-delete_grant}
use mailu.OAuth.Grants.{force_reauthentication, force_user_reauthentication}
use mailu.OAuth.Endpoint.{revoke}
use mailu.OAuth.Introspect.{Claims, active, introspect}
use mailu.OAuth.Introspect.Active.{introspect-Active}

module _ (crypto : Crypto) (db : Db) where
  -- After a client has revoked any token of a grant, no access token of the grant is active.
  pub introspect-revoke :
      (presented raw_token : Bytes) (j k : Kind) (grant_id : Bytes) (m n now : ℕ)
      (protocol : Option Bytes) (claims : Claims)
      → Token.parse crypto.mac none presented ≡ some (j, grant_id, m)
      → Token.parse crypto.mac (some access) raw_token ≡ some (k, grant_id, n)
      → introspect crypto now protocol raw_token (revoke crypto (some client_id) presented db).1
        ≢ active claims
  introspect-revoke presented raw_token j k grant_id m n now protocol claims p a h =
      let v = introspect-Active crypto now protocol raw_token _ claims h in
      let gone : (revoke crypto (some client_id) presented db).1 ≡ delete_grant grant_id db =
        unfold revoke in ground (arith, p, bytes_eq_refl client_id) in
      ground (arith, v.parsed, a, v.granted, gone, find_grant-delete_grant grant_id db)

-- what a user's forced re-authentication leaves of a grant that is found
first-forced :
    (now : ℕ) (email i : Bytes) (gs : List Grant) (g : Grant)
    → first
        (λ (x : Grant). bytes_eq x.grant_id i)
        (map
          (λ (x : Grant). if bytes_eq x.user_email email then force_reauthentication now x else x)
          gs)
      ≡ some g
    → g.user_email ≡ email
    → g.access_expires_at ≤ now
unfolding force_reauthentication
first-forced now email i [] g h e = cc
first-forced now email i (x ∷ xs) g h e =
    ground (arith, first-forced now email i xs g, bytes_eq_refl email)

module _ (crypto : Crypto) (db : Db) (email : Bytes) (forced now : ℕ) (later : forced ≤ now) where
  -- Once a user's grants were forced to re-authenticate, as a changed password does, no access token
  -- of a grant of the user is active any more.
  pub introspect-force_user_reauthentication :
      (protocol : Option Bytes) (raw_token : Bytes) (claims : Claims) (grant_id : Bytes) (n : ℕ)
      (g : Grant)
      → Token.parse crypto.mac (some access) raw_token ≡ some (access, grant_id, n)
      → find_grant grant_id (force_user_reauthentication forced email db) ≡ some g
      → g.user_email ≡ email
      → introspect crypto now protocol raw_token (force_user_reauthentication forced email db)
        ≢ active claims
  introspect-force_user_reauthentication protocol raw_token claims grant_id n g p f e h =
      let v = introspect-Active crypto now protocol raw_token _ claims h in
      let spent : g.access_expires_at ≤ forced =
        first-forced forced email grant_id db.grants g
          (unfold find_grant force_user_reauthentication in f) e in
      ground (arith, v.parsed, p, v.granted, f, v.unexpired, spent)
