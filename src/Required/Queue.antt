-- ===== src/Required/Queue.antt =====
-- The queue of required actions over any history of requests.
use mailu.Prelude.{
  ◌≡◌, refl, ap, ◌∙◌, inl, inr, Bool, true, false, not, ◌&&◌, ◌||◌, Option, none, some, List, [],
  ◌∷◌, ◌++◌, arith, Bool-cases, Option-cases, is_some, all, Bytes, bytes_eq, bytes_eq_refl,
  bytes_eq→eq, member,
}
use mailu.Required.{
  User, Urls, Flow, action_endpoint, user_required_actions, pending, append_one, append_new,
  same_origin, or_root, remember, require_actions, remove, Outcome, to_endpoint, to_url,
  next_action, final_url, complete_action, Request, exempt_endpoints, lets_through,
  enforce_pending_actions,
}

abbrev pub no_flow : Flow
no_flow = record { actions = none; destination = none }

-- a login may require actions and name a destination, a page may complete an action, and every
-- request is checked
pub data Step (urls : Urls) (web_admin : Bytes) : Flow → Flow → Type 0 where
  required :
      (s : Flow) (url : Bytes) (u : User) (wanted : Option Bytes)
      → Step urls web_admin s (require_actions urls url (user_required_actions u) wanted s)
  completed :
      (s : Flow) (action : Bytes) → Step urls web_admin s (complete_action web_admin action s).0
  enforced : (s : Flow) (r : Request) → Step urls web_admin s (enforce_pending_actions r s).0

pub data Reach (urls : Urls) (web_admin : Bytes) : Flow → Type 0 where
  start : Reach urls web_admin no_flow
  next : {s t : Flow} → Reach urls web_admin s → Step urls web_admin s t → Reach urls web_admin t

abbrev pub known : Bytes → Bool
known action = is_some (action_endpoint action)

abbrev pub distinct : List Bytes → Bool
distinct [] = true
distinct (a ∷ more) = not (member a more) && distinct more

-- a URL that had the origin of the request that named it
pub record IsLocal (urls : Urls) (url : Bytes) : Type 0 where
  pub request_url : Bytes
  pub wanted : Bytes
  pub is_target : url ≡ (urls.urlparse (urls.urljoin request_url wanted)).text
  pub local :
      same_origin (urls.urlparse (urls.urljoin request_url wanted)) (urls.urlparse request_url)
      ≡ true

-- Every pending action has a page and is pending once, and the destination is local.
pub record Sound (urls : Urls) (s : Flow) : Type 0 where
  pub all_known : all known (pending s) ≡ true
  pub all_distinct : distinct (pending s) ≡ true
  pub local_destination : (url : Bytes) → s.destination ≡ some url → IsLocal urls url

all-append : (p : Bytes → Bool) (xs ys : List Bytes) → all p (xs ++ ys) ≡ (all p xs && all p ys)
all-append p [] ys = refl
all-append p (x ∷ xs) ys = ground (arith, all-append p xs ys)

member-append :
    (a : Bytes) (xs ys : List Bytes) → member a (xs ++ ys) ≡ (member a xs || member a ys)
unfolding member
member-append a [] ys = refl
member-append a (x ∷ xs) ys = ground (arith, member-append a xs ys)

distinct-snoc :
    (xs : List Bytes) (a : Bytes)
    → distinct xs ≡ true
    → member a xs ≡ false
    → distinct (xs ++ a ∷ []) ≡ true
unfolding member
distinct-snoc [] a h k = refl
distinct-snoc (x ∷ xs) a h k = ground (
  arith,
  distinct-snoc xs a,
  member-append x xs (a ∷ []),
  bytes_eq→eq x a,
  bytes_eq→eq a x,
  bytes_eq_refl a,
)

module _ (queue : List Bytes) (a : Bytes) where
  append_one-known : all known queue ≡ true → known a ≡ true → all known (append_one queue a) ≡ true
  append_one-known h k = ground (arith, all-append known queue (a ∷ []))

  append_one-distinct : distinct queue ≡ true → distinct (append_one queue a) ≡ true
  append_one-distinct h = ground (arith, distinct-snoc queue a)

append_new-known :
    (queue more : List Bytes)
    → all known queue ≡ true
    → all known more ≡ true
    → all known (append_new queue more) ≡ true
append_new-known queue [] h k = h
append_new-known queue (a ∷ more) h k =
    append_new-known (append_one queue a) more (append_one-known queue a h (ground arith))
      (ground arith)

append_new-distinct :
    (queue more : List Bytes) → distinct queue ≡ true → distinct (append_new queue more) ≡ true
append_new-distinct queue [] h = h
append_new-distinct queue (a ∷ more) h =
    append_new-distinct (append_one queue a) more (append_one-distinct queue a h)

-- what a user has to do has a page
user_required_actions-known : (u : User) → all known (user_required_actions u) ≡ true
unfolding user_required_actions action_endpoint bytes_eq
user_required_actions-known u = ground arith

remember-IsLocal :
    (urls : Urls) (request_url : Bytes) (wanted old : Option Bytes) (url : Bytes)
    → ((d : Bytes) → old ≡ some d → IsLocal urls d)
    → remember urls request_url wanted old ≡ some url
    → IsLocal urls url
unfolding remember
remember-IsLocal urls request_url none old url h e = h url e
remember-IsLocal urls request_url (some wanted) old url h e =
    let target = urls.urlparse (urls.urljoin request_url (or_root wanted)) in
    elim (Bool-cases (same_origin target (urls.urlparse request_url))) [
      | inl same ↦ record {
        request_url = request_url;
        wanted = or_root wanted;
        is_target = ground arith;
        local = same;
      }
      | inr other ↦ h url (ground arith)
    ]

remove-known :
    (a : Bytes) (queue : List Bytes) → all known queue ≡ true → all known (remove a queue) ≡ true
remove-known a [] h = refl
remove-known a (b ∷ more) h = ground (arith, remove-known a more)

member-remove :
    (c a : Bytes) (more : List Bytes) → member c more ≡ false → member c (remove a more) ≡ false
unfolding member
member-remove c a [] h = refl
member-remove c a (b ∷ more) h = ground (arith, member-remove c a more)

remove-distinct :
    (a : Bytes) (queue : List Bytes) → distinct queue ≡ true → distinct (remove a queue) ≡ true
remove-distinct a [] h = refl
remove-distinct a (b ∷ more) h = ground (arith, remove-distinct a more, member-remove b a more)

complete_action-Sound :
    (urls : Urls) (web_admin action : Bytes) (s : Flow)
    → Sound urls s
    → Sound urls (complete_action web_admin action s).0
unfolding complete_action
complete_action-Sound urls web_admin action s h = record {
  all_known = ground (arith, h.all_known, remove-known action (pending s));
  all_distinct = ground (arith, h.all_distinct, remove-distinct action (pending s));
  local_destination = λ url e. h.local_destination url (ground arith);
}

enforce-Sound :
    (urls : Urls) (r : Request) (s : Flow)
    → Sound urls s
    → Sound urls (enforce_pending_actions r s).0
unfolding enforce_pending_actions
enforce-Sound urls r s h = record {
  all_known = ground (arith, h.all_known);
  all_distinct = ground (arith, h.all_distinct);
  local_destination = λ url e. h.local_destination url (ground arith);
}

Step-Sound :
    {urls : Urls} {web_admin : Bytes} {s t : Flow}
    → Step urls web_admin s t
    → Sound urls s
    → Sound urls t
unfolding require_actions
Step-Sound {urls} (required s url u wanted) h = record {
  all_known =
      append_new-known (pending s) (user_required_actions u) h.all_known
        (user_required_actions-known u);
  all_distinct = append_new-distinct (pending s) (user_required_actions u) h.all_distinct;
  local_destination = λ d e. remember-IsLocal urls url wanted s.destination d h.local_destination e;
}
Step-Sound {urls} {web_admin} (completed s action) h =
    complete_action-Sound urls web_admin action s h
Step-Sound {urls} (enforced s r) h = enforce-Sound urls r s h

-- After any history, every pending action has a page and is pending once, and the destination had the
-- origin of the request that named it.
pub Reach-Sound :
    {urls : Urls} {web_admin : Bytes} {s : Flow} → Reach urls web_admin s → Sound urls s
Reach-Sound start = record {
  all_known = refl;
  all_distinct = refl;
  local_destination = λ url e. absurd (ground arith);
}
Reach-Sound (next r step) = Step-Sound step (Reach-Sound r)

module _ {urls : Urls} {web_admin : Bytes} (s : Flow) (reached : Reach urls web_admin s) (a : Bytes)
    (more : List Bytes) (head_of : pending s ≡ a ∷ more) where
  head_known : (handler : Bytes) × (action_endpoint a ≡ some handler)
  head_known = elim (Option-cases (action_endpoint a)) [
    | inl bad ↦ absurd (let h = Reach-Sound reached in ground (arith, h.all_known))
    | inr found ↦ found
  ]

  -- While an action is pending, a request of the user that is signed in is redirected to the page of the
  -- first one and the queue stays as it is, unless the request is for a page that is exempt or that this
  -- action allows: no history of requests gets round it.
  pub enforce_pending_actions-gate :
      (r : Request)
      → r.is_authenticated ≡ true
      → member r.endpoint exempt_endpoints ≡ false
      → lets_through r a ≡ false
      → (handler : Bytes) × (action_endpoint a ≡ some handler)
        × (enforce_pending_actions r s ≡ (s, some handler))
  unfolding enforce_pending_actions
  enforce_pending_actions-gate r signed_in paged closed =
      let (handler, e) = head_known in (handler, e, ground arith)

-- the actions of a queue completed one after another, each at its turn
unfoldable pub completes : Bytes → List Bytes → Flow → Flow × List Outcome
completes web_admin [] s = (s, [])
completes web_admin (a ∷ more) s =
    let (s', outcome) = complete_action web_admin a s in
    let (s'', outcomes) = completes web_admin more s' in (s'', outcome ∷ outcomes)

-- the redirects to the pages of the rest of the queue, and at last to the destination
abbrev pub tour : Bytes → Option Bytes → List Bytes → List Outcome
tour web_admin destination [] = to_url (final_url web_admin destination) ∷ []
tour web_admin destination (a ∷ more) = elim (action_endpoint a) [
  | none ↦ []
  | some handler ↦ to_endpoint handler ∷ tour web_admin destination more
]

complete_action-last :
    (web_admin a : Bytes) (s : Flow)
    → pending s ≡ a ∷ []
    → complete_action web_admin a s ≡ (no_flow, to_url (final_url web_admin s.destination))
unfolding complete_action member
complete_action-last web_admin a s h = ground (arith, bytes_eq_refl a)

complete_action-first :
    (web_admin a b : Bytes) (more : List Bytes) (s : Flow)
    → pending s ≡ a ∷ b ∷ more
    → complete_action web_admin a s ≡ (record s { actions = some (b ∷ more) }, next_action b)
unfolding complete_action member
complete_action-first web_admin a b more s h = ground (arith, bytes_eq_refl a)

completes-step :
    (web_admin a : Bytes) (more : List Bytes) (s s' t : Flow) (o : Outcome) (os : List Outcome)
    → complete_action web_admin a s ≡ (s', o)
    → completes web_admin more s' ≡ (t, os)
    → completes web_admin (a ∷ more) s ≡ (t, o ∷ os)
unfolding completes
completes-step web_admin a more s s' t o os e f = rw (e, f) refl

tour-known :
    (web_admin a : Bytes) (destination : Option Bytes) (more : List Bytes)
    → known a ≡ true
    → next_action a ∷ tour web_admin destination more ≡ tour web_admin destination (a ∷ more)
tour-known web_admin a destination more h = ground arith

completes-tour :
    (web_admin a : Bytes) (more : List Bytes) (s : Flow)
    → pending s ≡ a ∷ more
    → all known more ≡ true
    → completes web_admin (a ∷ more) s ≡ (no_flow, tour web_admin s.destination more)
completes-tour web_admin a [] s h k =
    completes-step web_admin a [] s no_flow no_flow _ [] (complete_action-last web_admin a s h)
      (unfold completes in refl)
completes-tour web_admin a (b ∷ more) s h k =
    let s' : Flow = record s { actions = some (b ∷ more) } in
    completes-step web_admin a (b ∷ more) s s' no_flow (next_action b)
      (tour web_admin s.destination more) (complete_action-first web_admin a b more s h)
      (completes-tour web_admin b more s' refl (ground arith))
    ∙ ap (λ os. (no_flow, os)) (tour-known web_admin b s.destination more (ground arith))

-- After any history, completing the pending actions at their turn leads from the page of one to that of
-- the next and at last to the destination, and leaves nothing pending: none of the steps fails.
pub completes-Reach :
    {urls : Urls} {web_admin : Bytes} (s : Flow)
    → Reach urls web_admin s
    → (a : Bytes) (more : List Bytes) → pending s ≡ a ∷ more
    → completes web_admin (pending s) s ≡ (no_flow, tour web_admin s.destination more)
completes-Reach {web_admin} s reached a more h =
    let sound = Reach-Sound reached in
    ap (λ queue. completes web_admin queue s) h
    ∙ completes-tour web_admin a more s h (let k = sound.all_known in ground arith)
