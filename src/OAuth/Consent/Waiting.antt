-- ===== src/OAuth/Consent/Waiting.antt =====
-- What waits in the session for an answer.
use mailu.Prelude.{
  ℕ, ◌⊎◌, any, words, ◌≤◌, ◌≡◌, refl, sym, subst, not, ◌||◌, codes, Bool, true, false,
  if◌then◌else◌, ◌&&◌, Option, Option-cases, none, some, List, [], ◌∷◌, leb, length, all, arith,
  Bytes, bytes_eq, Dict, get_item, set_item, del_item, inl, inr,
}
use mailu.OAuth.{find_user, client_id, User, Crypto, Config}
use mailu.OAuth.Authorize.{
  Site, is_resource, consent_scopes, Request, Response, accepted_request, wants_code, wants_query,
  lacks_pkce, challenge_of, requested, scopes_allowed, is_given_as, Outcome, refused, accepted,
  valid_redirect_uri, is_challenge_char, validate_rest, validate_authorization_request,
}
use mailu.OAuth.Consent.{
  Pending, Store, Form, Method, get, post, limit_pending, approve, posted_id, authorize_get, answer,
  authorize_post, authorize,
}

abbrev all_values {ℓ} : {V : Type ℓ} → (V → Bool) → Dict V → Bool
all_values p [] = true
all_values p ((k, v) ∷ d) = p v && all_values p d

module _ {ℓ} {V : Type ℓ} (p : V → Bool) where
  all_values-set_item :
      (key : Bytes) (v : V) (d : Dict V)
      → p v ≡ true
      → all_values p d ≡ true
      → all_values p (set_item key v d) ≡ true
  all_values-set_item key v [] h g = ground arith
  all_values-set_item key v ((k, w) ∷ d) h g = ground (arith, all_values-set_item key v d)

  all_values-del_item :
      (key : Bytes) (d : Dict V) → all_values p d ≡ true → all_values p (del_item key d) ≡ true
  all_values-del_item key [] g = refl
  all_values-del_item key ((k, w) ∷ d) g = ground (arith, all_values-del_item key d)

  pub all_values-get_item :
      (key : Bytes) (d : Dict V) (v : V)
      → all_values p d ≡ true
      → get_item key d ≡ some v
      → p v ≡ true
  all_values-get_item key [] v g h = cc
  all_values-get_item key ((k, w) ∷ d) v g h = ground (arith, all_values-get_item key d v)

length-del_item {ℓ} : {V : Type ℓ} (key : Bytes) (d : Dict V) → length (del_item key d) ≤ length d
length-del_item key [] = omega arith
length-del_item key ((k, w) ∷ d) = ground (arith, length-del_item key d)

all_values-limit_pending :
    (p : Pending → Bool) (d : Dict Pending)
    → all_values p d ≡ true
    → all_values p (limit_pending d) ≡ true
unfolding limit_pending
all_values-limit_pending p [] h = refl
all_values-limit_pending p ((k, w) ∷ d) h = ground (arith, all_values-limit_pending p d)

length-limit_pending : (d : Dict Pending) → leb (length (limit_pending d)) 5 ≡ true
unfolding limit_pending
length-limit_pending [] = refl
length-limit_pending (item ∷ d) = ground (arith, length-limit_pending d)

abbrev pub is_challenge : Bytes → Bool
is_challenge challenge =
    leb 43 (length challenge) && leb (length challenge) 128 && all is_challenge_char challenge

all_sound : (a b c : Bool) → not a ≡ false → not b ≡ false → c ≡ true → (a && b && c) ≡ true
all_sound a b c h g k = ground arith

-- what is known of a request that waits
abbrev pub is_sound : Site → Request → Bool
is_sound site r =
    bytes_eq r.client client_id
    && valid_redirect_uri site r.redirect_uri
    && is_challenge r.code_challenge

passed :
    (b : Bool) (bad : Response) (o : Outcome) (r : Request)
    → (if b then refused bad else o) ≡ accepted r
    → (b ≡ false) × (o ≡ accepted r)
passed true bad o r h = cc
passed false bad o r h = (refl, h)

accepted_inj : (q r : Request) → accepted q ≡ accepted r → q ≡ r
accepted_inj q r h = cc

challenge-fits :
    (method : Bool) (challenge : Bytes)
    → (not method || not (leb 43 (length challenge) && leb (length challenge) 128)) ≡ false
    → not (all is_challenge_char challenge) ≡ false
    → is_challenge challenge ≡ true
challenge-fits method challenge h g = ground arith

-- the request that is accepted, and its challenge
validate_rest-accepted :
    (site : Site) (values : Dict Bytes) (r : Request)
    → validate_rest site values ≡ accepted r
    → (r ≡ accepted_request values) × (is_challenge r.code_challenge ≡ true)
unfolding validate_rest
validate_rest-accepted site values r h =
    let (_, h1) = passed (not (wants_code values)) _ _ r h in
    let (_, h2) = passed (not (wants_query values)) _ _ r h1 in
    let (pkce, h3) = passed (lacks_pkce values) _ _ r h2 in
    let (chars, h4) = passed (not (all is_challenge_char (challenge_of values))) _ _ r h3 in
    let (_, h5) = passed (not (scopes_allowed (requested values))) _ _ r h4 in
    let e : accepted_request values ≡ r = accepted_inj _ r h5 in
    (
      sym e,
      subst (λ q. is_challenge q.code_challenge ≡ true) e
          (challenge-fits (is_given_as "S256" (get_item (codes "code_challenge_method") values))
            (challenge_of values) pkce chars),
    )

validate_authorization_request-is_sound :
    (site : Site) (values : Dict Bytes) (r : Request)
    → validate_authorization_request site values ≡ accepted r
    → is_sound site r ≡ true
unfolding validate_authorization_request
validate_authorization_request-is_sound site values r h =
    let q = accepted_request values in
    let (client, h1) = passed (not (bytes_eq q.client client_id)) _ _ r h in
    let (uri, h2) = passed (not (valid_redirect_uri site q.redirect_uri)) _ _ r h1 in
    let (e, challenge) = validate_rest-accepted site values r h2 in
    subst (λ (t : Request). is_sound site t ≡ true) (sym e)
      (all_sound _ _ _ client uri
        (subst (λ (t : Request). is_challenge t.code_challenge ≡ true) e challenge))

Outcome-cases :
    (o : Outcome)
    → ((response : Response) × (o ≡ refused response)) ⊎ ((r : Request) × (o ≡ accepted r))
Outcome-cases (refused response) = inl (response, refl)
Outcome-cases (accepted r) = inr (r, refl)

both : (a b : Bool) → a ≡ true → b ≡ true → (a && b) ≡ true
both a b h g = ground arith

both_left : (a b : Bool) → (a && b) ≡ true → a ≡ true
both_left a b h = ground arith

both_right : (a b : Bool) → (a && b) ≡ true → b ≡ true
both_right a b h = ground arith

le_five : (m n : ℕ) → m ≤ n → leb n 5 ≡ true → leb m 5 ≡ true
le_five m n h g = ground arith

either_of {ℓ} :
    {A : Type ℓ} (P : A → Type 0) (b : Bool) (one other : A)
    → P one
    → P other
    → P (if b then one else other)
either_of P true one other h g = h
either_of P false one other h g = g

module _ (site : Site) where
  abbrev sound_pending : Pending → Bool
  sound_pending p = is_sound site p.request

  -- five requests at most, each of them sound
  unfoldable pub is_waiting : Dict Pending → Bool
  is_waiting pending = all_values sound_pending pending && leb (length pending) 5

  is_waiting-del_item :
      (id : Bytes) (pending : Dict Pending)
      → is_waiting pending ≡ true
      → is_waiting (del_item id pending) ≡ true
  unfolding is_waiting
  is_waiting-del_item id pending h =
      both _ _ (all_values-del_item sound_pending id pending (both_left _ _ h))
        (le_five _ _ (length-del_item id pending) (both_right _ _ h))

  is_waiting-added :
      (id : Bytes) (p : Pending) (pending : Dict Pending)
      → is_sound site p.request ≡ true
      → is_waiting pending ≡ true
      → is_waiting (limit_pending (set_item id p pending)) ≡ true
  unfolding is_waiting
  is_waiting-added id p pending s h =
      both _ _
        (all_values-limit_pending sound_pending (set_item id p pending)
          (all_values-set_item sound_pending id p pending s (both_left _ _ h)))
        (length-limit_pending (set_item id p pending))

  pub is_waiting-get_item :
      (id : Bytes) (pending : Dict Pending) (p : Pending)
      → is_waiting pending ≡ true
      → get_item id pending ≡ some p
      → is_sound site p.request ≡ true
  unfolding is_waiting
  is_waiting-get_item id pending p h e =
      all_values-get_item sound_pending id pending p (both_left _ _ h) e

  authorize_get-waiting :
      (args : Dict Bytes) (id : Bytes) (user : User) (pending : Dict Pending)
      → is_waiting pending ≡ true
      → is_waiting (authorize_get site args id user pending).1 ≡ true
  unfolding authorize_get
  authorize_get-waiting args id user pending h =
      elim (Outcome-cases (validate_authorization_request site args)) [
        | inl (response, e) ↦ rw (authorize_get, e) h
        | inr (r, e) ↦
            let p : Pending = record { request = r; user_email = user.email } in
            let added =
              is_waiting-added id p pending (validate_authorization_request-is_sound site args r e)
                h in
            rw (authorize_get, e)
              (either_of (λ (t : Response × Dict Pending). is_waiting t.1 ≡ true)
                (not (any is_resource (consent_scopes (words r.scope) user))) _ _
                (is_waiting-del_item id (limit_pending (set_item id p pending)) added) added)
      ]

  module _ (crypto : Crypto) (config : Config) (validates : List Bytes → Form → Bool)
      (now : ℕ) where
    abbrev Waits : Response × Store → Type 0
    Waits r = is_waiting r.1.pending ≡ true

    answer-waiting :
        (raw_code : Bytes) (form : Form) (user : User) (id : Bytes) (r : Request) (st : Store)
        → is_waiting st.pending ≡ true
        → is_waiting (answer site crypto config validates now raw_code form user id r st).1.pending
          ≡ true
    unfolding answer approve
    answer-waiting raw_code form user id r st h =
        let gone = is_waiting-del_item id st.pending h in
        let choices = consent_scopes (words r.scope) user in
        either_of Waits (not (validates choices form)) _ _ h (
          either_of Waits form.deny _ _ gone (
            either_of Waits (not (any is_resource form.selected_scopes)) _ _ h
              (elim (Option-cases (find_user user.email st.db)) [
                | inl e ↦ rw e gone
                | inr (u, e) ↦ rw e (either_of Waits (not u.enabled) _ _ gone gone)
              ])))

    authorize_post-waiting :
        (raw_code : Bytes) (form : Form) (user : User) (st : Store)
        → is_waiting st.pending ≡ true
        → is_waiting
            (authorize_post site crypto config validates now raw_code form user st).1.pending
          ≡ true
    unfolding authorize_post
    authorize_post-waiting raw_code form user st h =
        let id = posted_id form.request_id st.pending in
        elim (Option-cases (get_item id st.pending)) [
          | inl e ↦ rw (authorize_post, e) h
          | inr (p, e) ↦
              rw (authorize_post, e)
                (either_of Waits (not (bytes_eq p.user_email user.email)) _ _ h
                  (answer-waiting raw_code form user id p.request st h))
        ]

    -- At most five requests wait in a session, and each of them is of the known client, with a redirect
    -- URI on the user's own machine and a challenge of 43 to 128 characters: every request to the page
    -- keeps this, whoever makes it.
    pub authorize-waiting :
        (remembered : Bool) (current : Option User) (method : Method) (st : Store)
        → is_waiting st.pending ≡ true
        → is_waiting
            (authorize site crypto config validates remembered current now method st).1.pending
          ≡ true
    unfolding authorize
    authorize-waiting remembered none method st h = h
    authorize-waiting remembered (some user) (get args id) st h =
        either_of Waits (not user.enabled) _ _ h (authorize_get-waiting args id user st.pending h)
    authorize-waiting remembered (some user) (post form raw_code) st h =
        either_of Waits (not user.enabled) _ _ h (authorize_post-waiting raw_code form user st h)
