-- ===== src/OAuth/Endpoint/Histories.antt =====
-- The tables of the OAuth server over any history of its operations.
use mailu.Prelude.{
  first, ℕ, ◌+◌, ◌≤◌, min, ◌≡◌, refl, ◌∙◌, subst, inl, inr, Bool, true, false, Option, none, some,
  List, [], ◌∷◌, map, arith, if◌then◌else◌, Bool-cases, Option-cases, is_some, filter, Bytes,
  bytes_eq,
}
use mailu.OAuth.{
  Crypto, Config, AuthorizationCode, Grant, User, Db, client_id, find_grant, delete_grant,
  put_grant, delete_code, has_offline_access,
}
use mailu.OAuth.Token.{Kind}
use mailu.OAuth.Pages.{oauth2_token_revoke, oauth2_token_reauthenticate}
use mailu.OAuth.Grants.{
  Call, Tokens, new_grant, touch_grant, access_expiry, issue, force_reauthentication,
  force_user_reauthentication, cleanup_expired_records,
}
use mailu.OAuth.Endpoint.{
  Form, Response, is_text, crashed, exchange, refresh_tokens, token, revoke, refresh_current,
  refresh_row, refresh_parsed, of_client, exchange_row, issue_new, revoke_parsed, tokens,
}

-- A grant has a refresh expiry just if its scope asks for one, and its access token does not outlive
-- it.
pub record IsSound (g : Grant) : Type 0 where
  pub ordered : (limit : ℕ) → g.refresh_expires_at ≡ some limit → g.access_expires_at ≤ limit
  pub offline : has_offline_access g.scope ≡ is_some g.refresh_expires_at

abbrev AllSound : List Grant → Type 0
AllSound [] = Unit
AllSound (g ∷ gs) = IsSound g × AllSound gs

-- every row of the table
pub record DbIsSound (db : Db) : Type 0 where
  pub rows : AllSound db.grants

if_IsSound : (b : Bool) {g h : Grant} → IsSound g → IsSound h → IsSound (if b then g else h)
if_IsSound true k l = k
if_IsSound false k l = l

-- what a handler leaves behind its response
record SoundAfter (r : Response × Db) : Type 0 where
  after : DbIsSound r.1

SoundAfter-if :
    (b : Bool) (x y : Response × Db) → SoundAfter x → SoundAfter y → SoundAfter (if b then x else y)
SoundAfter-if true x y h k = h
SoundAfter-if false x y h k = k

AllSound-filter : (p : Grant → Bool) (gs : List Grant) → AllSound gs → AllSound (filter p gs)
AllSound-filter p [] h = tt
AllSound-filter p (g ∷ gs) h = elim (Bool-cases (p g)) [
  | inl kept ↦ rw kept (h.0, AllSound-filter p gs h.1)
  | inr gone ↦ rw gone (AllSound-filter p gs h.1)
]

AllSound-map :
    (f : Grant → Grant)
    → ((g : Grant) → IsSound g → IsSound (f g))
    → (gs : List Grant) → AllSound gs
    → AllSound (map f gs)
AllSound-map f k [] h = tt
AllSound-map f k (g ∷ gs) h = (k g h.0, AllSound-map f k gs h.1)

AllSound-first :
    (p : Grant → Bool) (gs : List Grant) (g : Grant) → AllSound gs → first p gs ≡ some g → IsSound g
AllSound-first p [] g h e = cc
AllSound-first p (x ∷ xs) g h e = elim (Bool-cases (p x)) [
  | inl here ↦ subst IsSound (ground arith) h.0
  | inr there ↦ AllSound-first p xs g h.1 (ground arith)
]

of_client-some : (o : Option Grant) (g : Grant) → of_client o ≡ some g → o ≡ some g
of_client-some none g e = cc
of_client-some (some h) g e = ground arith

forced_order :
    (now access_expiry : ℕ) (o : Option ℕ) (limit : ℕ)
    → ((l : ℕ) → o ≡ some l → access_expiry ≤ l)
    → elim o [ none ↦ none | some t ↦ some (min t now) ] ≡ some limit
    → min access_expiry now ≤ limit
forced_order now a none limit h e = cc
forced_order now a (some t) limit h e = ground (arith, h t refl)

forced_kind :
    (now : ℕ) (o : Option ℕ)
    → is_some o ≡ is_some (elim o [ none ↦ none | some t ↦ some (min t now) ])
forced_kind now none = refl
forced_kind now (some t) = refl

module _ (crypto : Crypto) (config : Config) where
  -- the row that `issue` commits
  issue-IsSound :
      (call : Call) (g : Grant) (t : Tokens) (h : Grant)
      → has_offline_access g.scope ≡ is_some g.refresh_expires_at
      → issue crypto config call g.scope g ≡ some (t, h)
      → IsSound h
  unfolding issue access_expiry
  issue-IsSound call g t h o e = record {
    ordered = λ limit l. ground arith;
    offline = ground arith;
  }

  new_grant-offline :
      (call : Call) (email client scope : Bytes)
      → has_offline_access scope
        ≡ is_some (new_grant config call email client scope).refresh_expires_at
  unfolding new_grant
  new_grant-offline call email client scope = ground arith

  -- the end of `issue_new`
  issue_end : Db → AuthorizationCode → Option (Tokens × Grant) → Response × Db
  issue_end db row o = elim o [
    | none ↦ (crashed, db)
    | some (issued, g) ↦
        (tokens issued, record (delete_code row.hash db) { grants = g ∷ db.grants })
  ]

  issue_end_sound :
      (db : Db) (row : AuthorizationCode) (o : Option (Tokens × Grant))
      → DbIsSound db
      → ((t : Tokens) (h : Grant) → o ≡ some (t, h) → IsSound h)
      → SoundAfter (issue_end db row o)
  unfolding issue_end
  issue_end_sound db row none s k = record { after = s }
  issue_end_sound db row (some (t, h)) s k = record {
    after = record { rows = (k t h refl, s.rows) };
  }

  issue_new_sound :
      (call : Call) (db : Db) (row : AuthorizationCode) (email : Bytes)
      → DbIsSound db
      → SoundAfter (issue_new crypto config call db row email)
  unfolding issue_new issue_end
  issue_new_sound call db row email s = issue_end_sound db row _ s λ t h e.
      issue-IsSound call (new_grant config call email client_id row.scope) t h
        (new_grant-offline call email client_id row.scope) (unfold new_grant in e)

  delete_code_sound : (hash : Bytes) (db : Db) → DbIsSound db → DbIsSound (delete_code hash db)
  unfolding delete_code
  delete_code_sound hash db s = record { rows = s.rows }

  delete_grant_sound : (i : Bytes) (db : Db) → DbIsSound db → DbIsSound (delete_grant i db)
  unfolding delete_grant
  delete_grant_sound i db s = record { rows = AllSound-filter _ db.grants s.rows }

  put_grant_sound : (h : Grant) (db : Db) → IsSound h → DbIsSound db → DbIsSound (put_grant h db)
  unfolding put_grant
  put_grant_sound h db k s = record {
    rows =
        AllSound-map (λ (g : Grant). if bytes_eq g.grant_id h.grant_id then h else g)
          (λ g sg. if_IsSound (bytes_eq g.grant_id h.grant_id) k sg) db.grants s.rows;
  }

  rejected_sound : (response : Response) (db : Db) → DbIsSound db → SoundAfter (response, db)
  rejected_sound response db s = record { after = s }

  exchange_row_sound :
      (call : Call) (form : Form) (db : Db) (o : Option AuthorizationCode)
      → DbIsSound db
      → SoundAfter (exchange_row crypto config call form db o)
  unfolding exchange_row
  exchange_row_sound call form db none s = record { after = s }
  exchange_row_sound call form db (some row) s =
      search (SoundAfter-if, rejected_sound, delete_code_sound, issue_new_sound)

  -- the last step of a refresh
  refresh_end : Db → Option (Tokens × Grant) → Response × Db
  refresh_end db o = elim o [
    | none ↦ (crashed, db)
    | some (issued, h) ↦ (tokens issued, put_grant h db)
  ]

  refresh_end_sound :
      (db : Db) (o : Option (Tokens × Grant))
      → DbIsSound db
      → ((t : Tokens) (h : Grant) → o ≡ some (t, h) → IsSound h)
      → SoundAfter (refresh_end db o)
  unfolding refresh_end
  refresh_end_sound db none s k = record { after = s }
  refresh_end_sound db (some (t, h)) s k = record { after = put_grant_sound h db (k t h refl) s }

  refresh_current_sound :
      (call : Call) (db : Db) (g : Grant)
      → IsSound g
      → DbIsSound db
      → SoundAfter (refresh_current crypto config call db g)
  unfolding refresh_current refresh_end
  refresh_current_sound call db g k s =
      let renewed : Grant =
        touch_grant call (record g { token_generation = g.token_generation + 1 }) in
      let committed : SoundAfter (refresh_end db (issue crypto config call g.scope renewed)) =
        refresh_end_sound db (issue crypto config call g.scope renewed) s
          λ t h e. issue-IsSound call renewed t h (unfold touch_grant in k.offline) e in
      search (SoundAfter-if, rejected_sound, delete_grant_sound)

  refresh_row_sound :
      (call : Call) (db : Db) (n : ℕ) (o : Option Grant)
      → ((g : Grant) → o ≡ some g → IsSound g)
      → DbIsSound db
      → SoundAfter (refresh_row crypto config call db n o)
  unfolding refresh_row
  refresh_row_sound call db n none k s = record { after = s }
  refresh_row_sound call db n (some g) k s =
      let own : IsSound g = k g refl in
      search (SoundAfter-if, rejected_sound, delete_grant_sound, refresh_current_sound)

  found-IsSound :
      (db : Db) (i : Bytes) (g : Grant)
      → DbIsSound db
      → of_client (find_grant i db) ≡ some g
      → IsSound g
  unfolding find_grant
  found-IsSound db i g s e = AllSound-first _ db.grants g s.rows (of_client-some _ g e)

  refresh_parsed_sound :
      (call : Call) (db : Db) (o : Option (Kind × Bytes × ℕ))
      → DbIsSound db
      → SoundAfter (refresh_parsed crypto config call db o)
  unfolding refresh_parsed
  refresh_parsed_sound call db none s = record { after = s }
  refresh_parsed_sound call db (some (k, i, n)) s =
      refresh_row_sound call db n _ (λ g e. found-IsSound db i g s e) s

  token_sound :
      (call : Call) (form : Form) (db : Db)
      → DbIsSound db
      → SoundAfter (token crypto config call form db)
  unfolding token exchange refresh_tokens
  token_sound call form db s =
      search (SoundAfter-if, rejected_sound, exchange_row_sound, refresh_parsed_sound)

  revoke_parsed_sound :
      (db : Db) (o : Option (Kind × Bytes × ℕ)) → DbIsSound db → DbIsSound (revoke_parsed o db)
  unfolding revoke_parsed
  revoke_parsed_sound db none s = s
  revoke_parsed_sound db (some (k, i, n)) s = delete_grant_sound i db s

  revoke_sound :
      (form_client : Option Bytes) (presented : Bytes) (db : Db)
      → DbIsSound db
      → DbIsSound (revoke crypto form_client presented db).1
  revoke_sound form_client presented db s = elim (Bool-cases (is_text form_client client_id)) [
    | inl own ↦ unfold revoke in rw own (revoke_parsed_sound db _ s)
    | inr other ↦ unfold revoke in rw other s
  ]

  forced-IsSound : (now : ℕ) (g : Grant) → IsSound g → IsSound (force_reauthentication now g)
  unfolding force_reauthentication
  forced-IsSound now g s = record {
    ordered =
        λ limit l. forced_order now g.access_expires_at g.refresh_expires_at limit s.ordered l;
    offline = s.offline ∙ forced_kind now g.refresh_expires_at;
  }

  page_revoked_sound :
      (db : Db) (i : Bytes) {db' : Db}
      → oauth2_token_revoke i db ≡ some db'
      → DbIsSound db
      → DbIsSound db'
  unfolding oauth2_token_revoke
  page_revoked_sound db i e s = elim (Option-cases (find_grant i db)) [
    | inl bad ↦ absurd (ground arith)
    | inr (g, good) ↦ subst DbIsSound (ground arith) (delete_grant_sound g.grant_id db s)
  ]

  page_forced_sound :
      (now : ℕ) (db : Db) (i : Bytes) {db' : Db}
      → oauth2_token_reauthenticate now i db ≡ some db'
      → DbIsSound db
      → DbIsSound db'
  unfolding oauth2_token_reauthenticate find_grant
  page_forced_sound now db i e s = elim (Option-cases (find_grant i db)) [
    | inl bad ↦ absurd (ground arith)
    | inr (g, good) ↦
        let forced = forced-IsSound now g (AllSound-first _ db.grants g s.rows good) in
        subst DbIsSound (ground arith) (put_grant_sound (force_reauthentication now g) db forced s)
  ]

  -- A write to the tables by the server or the web pages: a request to `/token` or `/revoke`, the two
  -- buttons of the page of mail apps, a user whose grants are expired, the periodic cleanup, a user or
  -- domain that is deleted with its grants, and any write to the codes and the accounts alone. An import
  -- of a configuration, which takes the rows of grants as the file has them, is none of these.
  pub data Step (db : Db) : Db → Type 0 where
    requested : (call : Call) (form : Form) → Step db (token crypto config call form db).1
    revoked :
        (form_client : Option Bytes) (presented : Bytes)
        → Step db (revoke crypto form_client presented db).1
    forced : (now : ℕ) (email : Bytes) → Step db (force_user_reauthentication now email db)
    page_revoked :
        (grant_id : Bytes) {db' : Db} → oauth2_token_revoke grant_id db ≡ some db' → Step db db'
    page_forced :
        (now : ℕ) (grant_id : Bytes) {db' : Db}
        → oauth2_token_reauthenticate now grant_id db ≡ some db'
        → Step db db'
    removed : (kept : Grant → Bool) → Step db (record db { grants = filter kept db.grants })
    cleaned : (now : ℕ) → Step db (cleanup_expired_records config now db).0
    elsewhere :
        (rows : List AuthorizationCode) (users : List User)
        → Step db (record db { code_rows = rows; users = users })

  pub data Reach (db : Db) : Db → Type 0 where
    start : Reach db db
    next : {mid last : Db} → Reach db mid → Step mid last → Reach db last

  Step-DbIsSound : {db db' : Db} → Step db db' → DbIsSound db → DbIsSound db'
  Step-DbIsSound {db} (requested call form) s = (token_sound call form db s).after
  Step-DbIsSound {db} (revoked c p) s = revoke_sound c p db s
  Step-DbIsSound {db} (forced now email) s =
      unfold force_user_reauthentication in
      record {
        rows =
            AllSound-map _
              (λ g k. if_IsSound (bytes_eq g.user_email email) (forced-IsSound now g k) k) db.grants
              s.rows;
      }
  Step-DbIsSound {db} (cleaned now) s =
      unfold cleanup_expired_records in record { rows = AllSound-filter _ db.grants s.rows }
  Step-DbIsSound {db} (page_revoked i e) s = page_revoked_sound db i e s
  Step-DbIsSound {db} (page_forced now i e) s = page_forced_sound now db i e s
  Step-DbIsSound {db} (removed kept) s = record { rows = AllSound-filter kept db.grants s.rows }
  Step-DbIsSound (elsewhere rows users) s = record { rows = s.rows }

  -- Over any history of these writes that begins with sound grants, such as none, and holds no import of
  -- a configuration, every grant has a refresh expiry
  -- just if its scope holds offline_access, and no access token is set to outlive that expiry.
  pub Reach-DbIsSound : {db db' : Db} → DbIsSound db → Reach db db' → DbIsSound db'
  Reach-DbIsSound s start = s
  Reach-DbIsSound s (next r st) = Step-DbIsSound st (Reach-DbIsSound s r)
