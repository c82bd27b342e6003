-- ===== src/OAuth/Consent/Approved.antt =====
-- What an approval writes.
use mailu.Prelude.{
  ℕ, ◌≡◌, refl, sym, ap, ◌∙◌, inl, inr, Bool, true, false, none, some, List, [], ◌∷◌, arith, filter,
  first, any, all, Bool-cases, Option-cases, Bytes, bytes_eq, bytes_eq→eq, member, words, get_item,
  get_item-del_item,
}
use mailu.OAuth.{Crypto, Config, AuthorizationCode, User, Db, find_user, find_code}
use mailu.OAuth.Grants.{cleanup_expired_records}
use mailu.OAuth.Authorize.{Site, Response, Request, is_resource, consent_scopes}
use mailu.OAuth.Consent.{
  Pending, Store, Form, post, posted_id, code_row, add_code, approve, answer, authorize_post,
  authorize,
}
use mailu.OAuth.Consent.Waiting.{is_sound, is_waiting, is_waiting-get_item}

first-filter-none {ℓ} :
    {A : Type ℓ} (p q : A → Bool) (xs : List A) → first p xs ≡ none → first p (filter q xs) ≡ none
first-filter-none p q [] h = refl
first-filter-none p q (x ∷ xs) h = ground (arith, first-filter-none p q xs)

find_code-cleanup :
    (config : Config) (now : ℕ) (hash : Bytes) (db : Db)
    → find_code hash db ≡ none
    → find_code hash (cleanup_expired_records config now db).0 ≡ none
unfolding find_code cleanup_expired_records
find_code-cleanup config now hash db h =
    first-filter-none (λ (c : AuthorizationCode). bytes_eq c.hash hash) _ db.code_rows h

users-cleanup :
    (config : Config) (now : ℕ) (db : Db)
    → (cleanup_expired_records config now db).0.users ≡ db.users
unfolding cleanup_expired_records
users-cleanup config now db = refl

add_code-row :
    (hash : Bytes) (added row : AuthorizationCode) (db : Db)
    → find_code hash db ≡ none
    → find_code hash (add_code added db) ≡ some row
    → row ≡ added
unfolding find_code
add_code-row hash added row db old new = ground arith

-- behind a new code: the waiting request `p` with its id, and the account
pub record Approved (site : Site) (crypto : Crypto) (now : ℕ) (raw_code : Bytes) (form : Form)
    (user : User) (st st' : Store) (row : AuthorizationCode) (p : Pending) (u : User) : Type 0 where
  pub waiting : get_item (posted_id form.request_id st.pending) st.pending ≡ some p
  pub sound : is_sound site p.request ≡ true
  pub owner : p.user_email ≡ user.email
  pub account : find_user user.email st.db ≡ some u
  pub enabled : u.enabled ≡ true
  pub not_denied : form.deny ≡ false
  pub asked :
      all (λ scope. member scope (consent_scopes (words p.request.scope) user)) form.selected_scopes
      ≡ true
  pub for_mail : any is_resource form.selected_scopes ≡ true
  pub row_written : row ≡ code_row crypto now raw_code form.selected_scopes u p.request
  pub same_accounts : st'.db.users ≡ st.db.users
  pub spent : get_item (posted_id form.request_id st.pending) st'.pending ≡ none

-- a form that is valid selects among its choices
abbrev pub KeepsChoices : (List Bytes → Form → Bool) → Type 0
KeepsChoices validates =
    (choices : List Bytes) (form : Form)
    → validates choices form ≡ true
    → all (λ scope. member scope choices) form.selected_scopes ≡ true

module _ (site : Site) (crypto : Crypto) (config : Config) (validates : List Bytes → Form → Bool)
    (now : ℕ) (raw_code : Bytes) (form : Form) (user : User) where
  -- what `answer` decides
  record Answered (id : Bytes) (r : Request) (st st' : Store) (row : AuthorizationCode) (u : User)
      : Type 0 where
    valid : validates (consent_scopes (words r.scope) user) form ≡ true
    account : find_user user.email st.db ≡ some u
    enabled : u.enabled ≡ true
    not_denied : form.deny ≡ false
    for_mail : any is_resource form.selected_scopes ≡ true
    row_written : row ≡ code_row crypto now raw_code form.selected_scopes u r
    same_accounts : st'.db.users ≡ st.db.users
    spent : get_item id st'.pending ≡ none

  approve-row :
      (u : User) (id : Bytes) (r : Request) (st st' : Store) (response : Response)
      (row : AuthorizationCode) (hash : Bytes)
      → find_code hash st.db ≡ none
      → find_code hash st'.db ≡ some row
      → approve site crypto config now raw_code form u id r st ≡ (response, st')
      → (row ≡ code_row crypto now raw_code form.selected_scopes u r)
        × (st'.db.users ≡ st.db.users)
        × (get_item id st'.pending ≡ none)
  unfolding approve find_code
  approve-row u id r st st' response row hash old new e =
      let store_is : (approve site crypto config now raw_code form u id r st).1 ≡ st' =
        ap (λ (t : Response × Store). t.1) e in
      (
        add_code-row hash (code_row crypto now raw_code form.selected_scopes u r) row
            (cleanup_expired_records config now st.db).0
            (find_code-cleanup config now hash st.db old)
            (ap (λ (t : Store). find_code hash t.db) store_is ∙ new),
        ap (λ (t : Store). t.db.users) (sym store_is) ∙ users-cleanup config now st.db,
        ap (λ (t : Store). get_item id t.pending) (sym store_is) ∙ get_item-del_item id st.pending,
      )

  answer-Answered :
      (id : Bytes) (r : Request) (st st' : Store) (response : Response) (row : AuthorizationCode)
      (hash : Bytes)
      → find_code hash st.db ≡ none
      → find_code hash st'.db ≡ some row
      → answer site crypto config validates now raw_code form user id r st ≡ (response, st')
      → (u : User) × Answered id r st st' row u
  unfolding answer
  answer-Answered id r st st' response row hash old new e =
      elim (Bool-cases (validates (consent_scopes (words r.scope) user) form)) [
        | inr bad ↦ absurd (ground arith)
        | inl valid ↦ elim (Bool-cases form.deny) [
          | inl bad ↦ absurd (ground arith)
          | inr deny ↦ elim (Bool-cases (any is_resource form.selected_scopes)) [
            | inr bad ↦ absurd (ground arith)
            | inl mail ↦ elim (Option-cases (find_user user.email st.db)) [
              | inl bad ↦ absurd (ground arith)
              | inr (u, account) ↦ elim (Bool-cases u.enabled) [
                | inr bad ↦ absurd (ground arith)
                | inl enabled ↦
                    let (written, same, spent) =
                      approve-row u id r st st' response row hash old new (ground arith) in
                    (
                      u,
                      record {
                        valid = valid;
                        account = account;
                        enabled = enabled;
                        not_denied = deny;
                        for_mail = mail;
                        row_written = written;
                        same_accounts = same;
                        spent = spent;
                      },
                    )
              ]
            ]
          ]
        ]
      ]

  -- An authorization code appears in the table only where the user, who is enabled and has not
  -- declined, answered a request that waited for this user, with access to mail and no scope but those
  -- that were asked for; the code is bound to the client, the redirect URI and the challenge of that
  -- request, all of them sound, and the request waits no more.
  pub authorize-Approved :
      (remembered : Bool) (st st' : Store) (response : Response) (row : AuthorizationCode)
      (hash : Bytes)
      → KeepsChoices validates
      → is_waiting site st.pending ≡ true
      → find_code hash st.db ≡ none
      → find_code hash st'.db ≡ some row
      → authorize site crypto config validates remembered (some user) now (post form raw_code) st
        ≡ (response, st')
      → (p : Pending) × (u : User) × Approved site crypto now raw_code form user st st' row p u
  unfolding authorize authorize_post
  authorize-Approved remembered st st' response row hash keeps waits old new e =
      let id = posted_id form.request_id st.pending in
      elim (Bool-cases user.enabled) [
        | inr bad ↦ absurd (ground arith)
        | inl enabled ↦ elim (Option-cases (get_item id st.pending)) [
          | inl bad ↦ absurd (ground arith)
          | inr (p, found) ↦ elim (Bool-cases (bytes_eq p.user_email user.email)) [
            | inr bad ↦ absurd (ground arith)
            | inl owner ↦
                let (u, a) =
                  answer-Answered id p.request st st' response row hash old new (ground arith) in
                (
                  p,
                  u,
                  record {
                    waiting = found;
                    sound = is_waiting-get_item site id st.pending p waits found;
                    owner = bytes_eq→eq p.user_email user.email owner;
                    account = a.account;
                    enabled = a.enabled;
                    not_denied = a.not_denied;
                    asked = keeps (consent_scopes (words p.request.scope) user) form a.valid;
                    for_mail = a.for_mail;
                    row_written = a.row_written;
                    same_accounts = a.same_accounts;
                    spent = a.spent;
                  },
                )
          ]
        ]
      ]
