-- ===== src/Required.antt =====
-- core/admin/mailu/auth_flow.py: the actions that a user has to complete before the rest of the web
-- interface. Parsing and joining of URLs are arguments.
pub mod Queue
mod Tests
use mailu.Prelude.{
  ◌/◌, Bool, true, false, not, ◌&&◌, ◌||◌, Option, none, some, List, [], ◌∷◌, ◌++◌, if◌then◌else◌,
  Bytes, codes, bytes_eq, member,
}

-- what decides about a user: the passkeys, the flags of the row, the setting and the domain
pub record User : Type 0 where
  pub has_passkeys : Bool
  pub change_pw_next_login : Bool
  pub passkey_enroll_next_login : Bool
  pub passkey_required : Bool
  pub domain_requires : Bool

-- `urlparse`, with `geturl`
pub record Url : Type 0 where
  pub scheme : Bytes
  pub netloc : Bytes
  pub text : Bytes

pub record Urls : Type 0 where
  pub urlparse : Bytes → Url
  pub urljoin : Bytes → Bytes → Bytes

-- the two keys of the session; none is a missing key
pub record Flow : Type 0 where
  pub actions : Option (List Bytes)
  pub destination : Option Bytes

abbrev pub password_change : Bytes
password_change = codes "password_change"

abbrev pub passkey_enrollment : Bytes
passkey_enrollment = codes "passkey_enrollment"

-- ACTION_ENDPOINTS
unfoldable pub action_endpoint : Bytes → Option Bytes
action_endpoint action =
    if bytes_eq action password_change
    then some (codes "sso.pw_change")
    else if bytes_eq action passkey_enrollment
    then some (codes "ui.passkey_required")
    else none

abbrev passkey_endpoints : List Bytes
passkey_endpoints =
    codes "ui.passkey_list"
    ∷ codes "ui.passkey_create"
    ∷ codes "ui.passkey_registration_options"
    ∷ codes "ui.passkey_register"
    ∷ []

-- ACTION_ALLOWED_ENDPOINTS
unfoldable pub allowed_endpoints : Bytes → List Bytes
allowed_endpoints action =
    if bytes_eq action password_change
    then passkey_endpoints
    else if bytes_eq action passkey_enrollment
    then codes "ui.passkey_required" ∷ passkey_endpoints
    else []

unfoldable pub user_required_actions : User → List Bytes
user_required_actions user =
    let passkeys_required = user.passkey_required || user.domain_requires in
    if user.has_passkeys
    then []
    else ((if user.change_pw_next_login && not passkeys_required then password_change ∷ [] else [])
        ++ (if user.passkey_enroll_next_login || passkeys_required
            then passkey_enrollment ∷ []
            else []))

abbrev pub pending : Flow → List Bytes
pending s = elim s.actions [ none ↦ [] | some actions ↦ actions ]

-- `if action not in pending: pending.append(action)`
abbrev append_one : List Bytes → Bytes → List Bytes
append_one queue action = if member action queue then queue else queue ++ action ∷ []

abbrev append_new : List Bytes → List Bytes → List Bytes
append_new queue [] = queue
append_new queue (action ∷ more) = append_new (append_one queue action) more

abbrev or_root : Bytes → Bytes
or_root [] = codes "/"
or_root (c ∷ cs) = c ∷ cs

abbrev same_origin : Url → Url → Bool
same_origin target origin =
    bytes_eq target.scheme origin.scheme && bytes_eq target.netloc origin.netloc

-- the destination, kept only where it has the origin of the request
unfoldable pub remember : Urls → Bytes → Option Bytes → Option Bytes → Option Bytes
remember urls request_url none destination = destination
remember urls request_url (some wanted) destination =
    let target = urls.urlparse (urls.urljoin request_url (or_root wanted)) in
    if same_origin target (urls.urlparse request_url) then some target.text else destination

unfoldable pub require_actions : Urls → Bytes → List Bytes → Option Bytes → Flow → Flow
unfolding remember
require_actions urls request_url actions wanted s = record {
  actions = some (append_new (pending s) actions);
  destination = remember urls request_url wanted s.destination;
}

-- `actions.remove(action)`
abbrev remove : Bytes → List Bytes → List Bytes
remove action [] = []
remove action (a ∷ more) =
    let rest = remove action more in if bytes_eq a action then more else a ∷ rest

-- how a view ends: with a ValueError, or a redirect to an endpoint or to a URL
pub data Outcome : Type 0 where
  value_error : Outcome
  to_endpoint : Bytes → Outcome
  to_url : Bytes → Outcome

abbrev next_action : Bytes → Outcome
next_action action = elim (action_endpoint action) [ none ↦ value_error | some e ↦ to_endpoint e ]

-- `destination or WEB_ADMIN`
abbrev final_url : Bytes → Option Bytes → Bytes
final_url web_admin none = web_admin
final_url web_admin (some []) = web_admin
final_url web_admin (some (c ∷ cs)) = c ∷ cs

abbrev after_removal : Bytes → List Bytes → Flow → Flow × Outcome
after_removal web_admin [] s =
    (record { actions = none; destination = none }, to_url (final_url web_admin s.destination))
after_removal web_admin (a ∷ more) s = (record s { actions = some (a ∷ more) }, next_action a)

unfoldable pub complete_action : Bytes → Bytes → Flow → Flow × Outcome
unfolding action_endpoint
complete_action web_admin action s =
    if member action (pending s)
    then after_removal web_admin (remove action (pending s)) s
    else (s, value_error)

-- the request that is about to be handled; the address in the URL is none where there is none
pub record Request : Type 0 where
  pub is_authenticated : Bool
  pub email : Bytes
  pub endpoint : Bytes
  pub user_email : Option Bytes

abbrev exempt_endpoints : List Bytes
exempt_endpoints = codes "static" ∷ codes "ui.logout" ∷ codes "sso.logout" ∷ []

abbrev pub own_email : Request → Bool
own_email r = elim r.user_email [ none ↦ true | some e ↦ bytes_eq e r.email ]

-- whether the first action lets the request through to its own pages
unfoldable pub lets_through : Request → Bytes → Bool
unfolding allowed_endpoints action_endpoint
lets_through r action =
    elim (action_endpoint action) [ none ↦ false | some handler ↦ bytes_eq r.endpoint handler ]
    || (member r.endpoint (allowed_endpoints action)
        && (bytes_eq r.endpoint (codes "ui.passkey_required") || own_email r))

-- `enforce_pending_actions`: the endpoint of a redirect, if there is one; an unknown action ends the
-- whole queue
unfoldable pub enforce_pending_actions : Request → Flow → Flow × Option Bytes
unfolding lets_through action_endpoint
enforce_pending_actions r s = elim (pending s) [
  | [] ↦ (s, none)
  | action ∷ more ↦
      if not r.is_authenticated || member r.endpoint exempt_endpoints || lets_through r action
      then (s, none)
      else elim (action_endpoint action) [
        | some handler ↦ (s, some handler)
        | none ↦ (record { actions = none; destination = none }, none)
      ]
]
