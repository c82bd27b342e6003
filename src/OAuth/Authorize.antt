-- ===== src/OAuth/Authorize.antt =====
-- core/admin/mailu/oauth2.py: the consent page `/authorize`: what a request to it has to be. What
-- `urlsplit` and `ipaddress` read is an argument; a page is its choices.
use mailu.Prelude.{
  ℕ, Bool, true, false, not, ◌&&◌, ◌||◌, Option, none, some, List, [], ◌∷◌, ◌++◌, ltb, leb, ◌==◌,
  if◌then◌else◌, length, filter, any, all, Bytes, codes, bytes_eq, member, words, lower, String,
  Dict, get_item, set_item,
}
use mailu.Mail.Columns.{sorted_set}
use mailu.OAuth.{client_id, User}

-- what `urlsplit` reads; `port_valid` tells that reading the port raises nothing
pub record Parsed : Type 0 where
  pub scheme : Bytes
  pub hostname : Option Bytes
  pub port_valid : Bool
  pub username : Option Bytes
  pub password : Option Bytes
  pub fragment : Bytes
  pub query : Bytes

-- none is a ValueError; of an address, whether it is a loopback one
pub record Site : Type 0 where
  pub urlsplit : Bytes → Option Parsed
  pub ip_address : Bytes → Option Bool
  pub issuer : Bytes
  pub issuer_is_https : Bool

pub record Request : Type 0 where
  pub client : Bytes
  pub redirect_uri : Bytes
  pub scope : Bytes
  pub code_challenge : Bytes
  pub state : Bytes

pub data Response : Type 0 where
  sign_in : Response
  aborted : (status : ℕ) → Response
  invalid_request : (description : Bytes) → Response
  redirect : (uri : Bytes) (params : Dict Bytes) → Response
  page : (choices : List Bytes) → Response

abbrev scope_order : List Bytes
scope_order =
    codes "imap" ∷ codes "pop3" ∷ codes "smtp" ∷ codes "sieve" ∷ codes "offline_access" ∷ []

-- membership in RESOURCE_SCOPES and in ALL_SCOPES
abbrev pub is_resource : Bytes → Bool
is_resource scope = member scope (codes "imap" ∷ codes "smtp" ∷ codes "pop3" ∷ codes "sieve" ∷ [])

abbrev pub is_scope : Bytes → Bool
is_scope scope = is_resource scope || bytes_eq scope (codes "offline_access")

unfoldable pub join_words : List Bytes → Bytes
join_words [] = []
join_words (x ∷ []) = x
join_words (x ∷ y ∷ ys) = x ++ b' ' ∷ join_words (y ∷ ys)

-- `_scope_string`
unfoldable pub scope_string : List Bytes → Bytes
scope_string scopes = join_words (sorted_set scopes)

-- `_consent_scopes`
unfoldable pub consent_scopes : List Bytes → User → List Bytes
consent_scopes scopes user =
    let ordered = filter (λ scope. member scope scopes) scope_order in
    if user.enable_pop
    then ordered
    else filter (λ scope. not (bytes_eq scope (codes "pop3"))) ordered

abbrev given : Option Bytes → Bool
given none = false
given (some []) = false
given (some (c ∷ cs)) = true

abbrev text_of : Option Bytes → Bytes
text_of none = []
text_of (some t) = t

-- `lstrip` and `rstrip` of characters
unfoldable pub drop_left : (ℕ → Bool) → Bytes → Bytes
drop_left p [] = []
drop_left p (c ∷ cs) = let rest = drop_left p cs in if p c then rest else c ∷ cs

unfoldable pub drop_right : (ℕ → Bool) → Bytes → Bytes
drop_right p [] = []
drop_right p (c ∷ cs) =
    let rest = drop_right p cs in if p c && length rest == 0 then [] else c ∷ rest

abbrev is_bracket : ℕ → Bool
is_bracket c = c == b'[' || c == b']'

abbrev is_web : Bytes → Bool
is_web scheme = bytes_eq scheme (codes "http") || bytes_eq scheme (codes "https")

-- the checks on a parsed URI
unfoldable pub valid_parsed : Site → Parsed → Bool
unfolding drop_left drop_right
valid_parsed site parsed =
    if not (given parsed.hostname)
      || not parsed.port_valid
      || given parsed.username
      || given parsed.password
      || ltb 0 (length parsed.fragment)
      || ltb 0 (length parsed.query)
    then false
    else let host = drop_right (λ c. c == b'.') (lower (text_of parsed.hostname)) in
      if bytes_eq host (codes "localhost")
      then is_web parsed.scheme
      else elim (site.ip_address (drop_right is_bracket (drop_left is_bracket host))) [
        | none ↦ false
        | some is_loopback ↦ is_loopback && is_web parsed.scheme
      ]

-- `_valid_redirect_uri`
unfoldable pub valid_redirect_uri : Site → Bytes → Bool
unfolding valid_parsed
valid_redirect_uri site value =
    if not (leb 1 (length value) && leb (length value) 2048)
    then false
    else elim (site.urlsplit value) [ none ↦ false | some parsed ↦ valid_parsed site parsed ]

-- `_redirect_with_params`
unfoldable pub redirect_with_params : Site → Bytes → Dict Bytes → Response
redirect_with_params site uri params =
    redirect uri
      (if site.issuer_is_https then set_item (codes "iss") site.issuer params else params)

abbrev pub is_challenge_char : ℕ → Bool
is_challenge_char c =
    (leb 65 c && leb c 90)
    || (leb 97 c && leb c 122)
    || (leb 48 c && leb c 57)
    || c == b'-'
    || c == b'_'

-- the checks on the words of a scope
unfoldable pub scopes_allowed : List Bytes → Bool
scopes_allowed requested = any is_resource requested && all is_scope requested

pub data Outcome : Type 0 where
  refused : Response → Outcome
  accepted : Request → Outcome

abbrev error_params : String → Bytes → Dict Bytes
error_params error state = (codes "error", codes error) ∷ (codes "state", state) ∷ []

-- `{'state': …} if …`
abbrev pub with_state : Bytes → Bytes × Bytes → Dict Bytes
with_state [] item = item ∷ []
with_state (c ∷ cs) item = item ∷ (codes "state", c ∷ cs) ∷ []

abbrev is_absent_or_query : Option Bytes → Bool
is_absent_or_query none = true
is_absent_or_query (some mode) = bytes_eq mode (codes "query")

abbrev pub is_given_as : String → Option Bytes → Bool
is_given_as word none = false
is_given_as word (some value) = bytes_eq value (codes word)

abbrev pub wants_code : Dict Bytes → Bool
wants_code values = is_given_as "code" (get_item (codes "response_type") values)

abbrev pub wants_query : Dict Bytes → Bool
wants_query values = is_absent_or_query (get_item (codes "response_mode") values)

abbrev pub challenge_of : Dict Bytes → Bytes
challenge_of values = text_of (get_item (codes "code_challenge") values)

abbrev pub lacks_pkce : Dict Bytes → Bool
lacks_pkce values =
    not (is_given_as "S256" (get_item (codes "code_challenge_method") values))
    || not (leb 43 (length (challenge_of values)) && leb (length (challenge_of values)) 128)

abbrev pub requested : Dict Bytes → List Bytes
requested values = words (text_of (get_item (codes "scope") values))

abbrev pub accepted_request : Dict Bytes → Request
accepted_request values = record {
  client = text_of (get_item (codes "client_id") values);
  redirect_uri = text_of (get_item (codes "redirect_uri") values);
  scope = scope_string (requested values);
  code_challenge = challenge_of values;
  state = text_of (get_item (codes "state") values);
}

-- the checks of `_validate_authorization_request` once the client and its URI are known
unfoldable pub validate_rest : Site → Dict Bytes → Outcome
unfolding scopes_allowed redirect_with_params scope_string
validate_rest site values =
    let uri = text_of (get_item (codes "redirect_uri") values) in
    let state = text_of (get_item (codes "state") values) in
    if not (wants_code values)
    then refused (redirect_with_params site uri (error_params "unsupported_response_type" state))
    else if not (wants_query values)
    then refused (
        redirect_with_params site uri (
          (codes "error", codes "invalid_request")
          ∷ (codes "error_description", codes "Only the query response mode is supported")
          ∷ (codes "state", state)
          ∷ []))
    else if lacks_pkce values
    then refused (
        redirect_with_params site uri (
          (codes "error", codes "invalid_request")
          ∷ (codes "error_description", codes "PKCE with S256 is required")
          ∷ (codes "state", state)
          ∷ []))
    else if not (all is_challenge_char (challenge_of values))
    then refused (redirect_with_params site uri (error_params "invalid_request" state))
    else if not (scopes_allowed (requested values))
    then refused (redirect_with_params site uri (error_params "invalid_scope" state))
    else accepted (accepted_request values)

-- `_validate_authorization_request`
unfoldable pub validate_authorization_request : Site → Dict Bytes → Outcome
unfolding validate_rest valid_redirect_uri
validate_authorization_request site values =
    if not (bytes_eq (text_of (get_item (codes "client_id") values)) client_id)
    then refused (invalid_request (codes "Unknown client_id"))
    else if not (valid_redirect_uri site (text_of (get_item (codes "redirect_uri") values)))
    then refused (invalid_request (codes "Unsupported redirect_uri"))
    else validate_rest site values
