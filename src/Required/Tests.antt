-- ===== src/Required/Tests.antt =====
-- A login that requires both actions, and the requests that follow.
use mailu.Prelude.{
  ◌≡◌, refl, true, false, none, some, [], ◌∷◌, take, drop, Bytes, codes, bytes_eq, member,
}
use mailu.Required.{
  User, Urls, Flow, password_change, passkey_enrollment, action_endpoint, allowed_endpoints,
  user_required_actions, pending, remember, require_actions, to_endpoint, to_url, Request,
  lets_through, enforce_pending_actions,
}
use mailu.Required.Queue.{
  no_flow, required, Reach, start, next, Sound, Reach-Sound, enforce_pending_actions-gate,
  completes, tour, completes-Reach,
}

abbrev urls : Urls
urls = record {
  urlparse = λ text. record { scheme = take 5 text; netloc = take 3 (drop 8 text); text = text };
  urljoin = λ base wanted. wanted;
}

abbrev newcomer : User
newcomer = record {
  has_passkeys = false;
  change_pw_next_login = true;
  passkey_enroll_next_login = true;
  passkey_required = false;
  domain_requires = false;
}

abbrev here : Bytes
here = codes "https://m.x/sso"

abbrev web_admin : Bytes
web_admin = codes "/admin"

abbrev s : Flow
s = record {
  actions = some (password_change ∷ passkey_enrollment ∷ []);
  destination = some (codes "https://m.x/webmail");
}

login :
    require_actions urls here
      (user_required_actions newcomer)
      (some (codes "https://m.x/webmail"))
      no_flow
    ≡ s
unfolding require_actions user_required_actions remember bytes_eq member
login = refl

abbrev logged_in : Flow
logged_in =
    require_actions urls here (user_required_actions newcomer) (some (codes "https://m.x/webmail"))
      no_flow

reached : Reach urls web_admin logged_in
reached = next start (required no_flow here newcomer (some (codes "https://m.x/webmail")))

elsewhere : (require_actions urls here [] (some (codes "https://e.v/")) no_flow).destination ≡ none
unfolding require_actions remember bytes_eq
elsewhere = refl

Reach-Sound_example : Sound urls logged_in
Reach-Sound_example = Reach-Sound reached

abbrev list_users : Request
list_users = record {
  is_authenticated = true;
  email = codes "a@b.c";
  endpoint = codes "ui.user_list";
  user_email = none;
}

enforce_pending_actions-gate_example :
    (handler : Bytes) × (action_endpoint password_change ≡ some handler)
    × (enforce_pending_actions list_users logged_in ≡ (logged_in, some handler))
unfolding require_actions user_required_actions remember bytes_eq member lets_through
    action_endpoint allowed_endpoints
enforce_pending_actions-gate_example =
    enforce_pending_actions-gate logged_in reached password_change (passkey_enrollment ∷ []) refl
      list_users refl refl refl

completes-Reach_example :
    completes web_admin (pending logged_in) logged_in
    ≡ (no_flow, tour web_admin logged_in.destination (passkey_enrollment ∷ []))
unfolding require_actions user_required_actions remember bytes_eq member
completes-Reach_example =
    completes-Reach logged_in reached password_change (passkey_enrollment ∷ []) refl

-- the redirects of the tour
toured :
    tour web_admin s.destination (passkey_enrollment ∷ [])
    ≡ to_endpoint (codes "ui.passkey_required") ∷ to_url (codes "https://m.x/webmail") ∷ []
unfolding action_endpoint bytes_eq
toured = refl
