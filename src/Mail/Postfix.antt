-- ===== src/Mail/Postfix.antt =====
-- core/admin/mailu/internal/views/postfix.py: the maps that Postfix looks up over HTTP. An answer is
-- a JSON text or an HTTP error; an exception that leaves a handler is a 500.
pub mod Transport
pub mod Answers
pub mod AliasMap
pub mod Logins
use mailu.Prelude.{
  ℕ, Bool, true, false, not, ◌&&◌, ◌||◌, Option, none, some, List, [], ◌∷◌, ◌++◌, map, ltb, ◌==◌,
  if◌then◌else◌, is_some, filter, Bytes, codes, bytes_eq, split_on, member, rsplit, count, lower,
}
use mailu.Mail.{
  Result, returned, raised, Idna, User, Db, at, required, bind_domain, read_domain, read_email,
  get_user, get_alternative, get_domain, read_all, ◌>>=◌,
}
use mailu.Mail.Columns.{join, is_empty, sorted_set}
use mailu.Mail.Resolve.{split_address, strip_detail, resolve_domain, resolve_destination}

pub data Response : Type 0 where
  json : Bytes → Response
  error : ℕ → Response

abbrev pub not_found : Response
not_found = error 404

abbrev starts_with : ℕ → Bytes → Bool
starts_with c [] = false
starts_with c (x ∷ xs) = x == c

-- the end of the text, or a last newline, for `$`
abbrev pub at_end : Bytes → Bool
at_end [] = true
at_end (c ∷ []) = c == 10
at_end (c ∷ d ∷ cs) = false

-- what `.*\]$` matches
unfoldable pub ends_bracket : Bytes → Bool
ends_bracket [] = false
ends_bracket (c ∷ cs) = (c == b']' && at_end cs) || (not (c == 10) && ends_bracket cs)

-- what `^\[.*\]$` matches
unfoldable pub is_bracketed : Bytes → Bool
is_bracketed [] = false
is_bracketed (c ∷ cs) = c == b'[' && ends_bracket cs

unfoldable pub drop_char : ℕ → Bytes → Bytes
drop_char d text = filter (λ c. not (c == d)) text

-- the settings that the maps read; `environ` is RECIPIENT_DELIMITER of the process
pub record Settings : Type 0 where
  pub environ_delimiter : Bytes
  pub recipient_delimiter : Bytes
  pub wildcard_senders : Bytes
  pub ratelimit_exemption : List Bytes

unfoldable pub wildcard_list : Settings → List Bytes
wildcard_list settings =
    filter (λ s. not (is_empty s)) (split_on b',' (drop_char 32 (lower settings.wildcard_senders)))

-- the local part before the first delimiter of the configuration
unfoldable pub cut_detail : Settings → Bytes → Bytes
cut_detail settings localpart = elim (strip_detail settings.recipient_delimiter localpart) [
  | none ↦ localpart
  | some stripped ↦ stripped
]

abbrev pub found_list : Option (List Bytes) → List Bytes
found_list none = []
found_list (some addresses) = addresses

module _ (idna : Idna) where
  unfoldable pub unsupported_address : Bool → Bytes → Bool
  unsupported_address require_mailbox address =
      (require_mailbox && not (count b'@' address == 1))
      || ltb 1 (count b'@' address)
      || starts_with b'"' address
      || not (is_some (idna.encode (lower (split_address address).1)))

  -- the domain of one address in its ASCII form; there is none without an `@`
  unfoldable pub encode_address : Bytes → Result Bytes
  encode_address address = elim (rsplit b'@' address) [
    | none ↦ raised
    | some (localpart, domain) ↦ do
      encoded ← required (idna.encode domain)
      returned (at localpart encoded)
  ]

  unfoldable pub idna_encode : List Bytes → Result (List Bytes)
  idna_encode [] = returned []
  idna_encode (address ∷ addresses) = do
    encoded ← encode_address address
    rest ← idna_encode addresses
    returned (encoded ∷ rest)

  unfoldable pub mailbox_domain : Db → Bytes → Result Response
  mailbox_domain db domain_name =
      if unsupported_address false domain_name || is_bracketed domain_name
      then returned not_found
      else (do
        domain ← get_domain idna db domain_name
        elim domain [
          | some name ↦ do text ← read_domain idna name; returned (json text)
          | none ↦ do
            alternative ← get_alternative idna db domain_name
            elim alternative [
              | some a ↦ do text ← read_domain idna a.name; returned (json text)
              | none ↦ returned not_found
            ]
        ])

  unfoldable pub mailbox_map : Db → Bytes → Result Response
  mailbox_map db email = if unsupported_address true email then returned not_found else (do
    user ← get_user idna db email
    elim user [
      | none ↦ returned not_found
      | some u ↦ do text ← read_email idna u.email; returned (json text)
    ])

  -- `hit` is what the limiter of the user answers
  unfoldable pub sender_rate : (Bytes → Bool) → Settings → Db → Bytes → Result Response
  sender_rate hit settings db sender =
      if member sender settings.ratelimit_exemption || unsupported_address true sender
      then returned not_found
      else (do
        user ← get_user idna db sender
        elim user [
          | none ↦ returned not_found
          | some u ↦ do
            email ← read_email idna u.email
            returned (
                if hit email
                then not_found
                else json (codes "450 4.2.1 You are sending too many emails too fast."))
        ])

  -- the answer to a list of addresses; an empty one is not found
  unfoldable pub answer_list : Option (List Bytes) → Result Response
  answer_list none = returned not_found
  answer_list (some []) = returned not_found
  answer_list (some (address ∷ addresses)) = do
    encoded ← idna_encode (address ∷ addresses)
    returned (json (join encoded))

  -- the users of the domain that may send under any of its addresses
  unfoldable pub spoofers : Db → Bytes → Result (List Bytes)
  spoofers db domain_name = do
    key ← bind_domain idna domain_name
    read_all idna (
        map (λ (u : User). u.email)
          (filter (λ (u : User). u.allow_spoofing && bytes_eq u.domain_name key) db.users))

module _ (idna : Idna) (like : Bytes → Bytes → Bool) (settings : Settings) (db : Db) where
  unfoldable pub alias_of : Option Bytes × Bytes → Result Response
  alias_of (none, domain_name) = returned (json domain_name)
  alias_of (some localpart, domain_name) = do
    found ← resolve_destination idna like settings.environ_delimiter db false localpart domain_name
    answer_list idna found

  unfoldable pub alias_map : Bytes → Result Response
  alias_map alias =
      if unsupported_address idna false alias
      then returned not_found
      else (do parts ← resolve_domain idna db alias; alias_of parts)

  -- the logins that may send as an address of these parts: a set, whose order Python does not fix
  -- and which is in order here
  unfoldable pub logins_of : Option Bytes × Bytes → Result (List Bytes)
  logins_of (none, domain_name) = returned (wildcard_list settings)
  logins_of (some localpart, domain_name) = do
    found ←
        resolve_destination idna like settings.environ_delimiter db true
          (cut_detail settings localpart) domain_name
    spoofing ← spoofers idna db domain_name
    returned (sorted_set (found_list found ++ wildcard_list settings ++ spoofing))

  -- The answer is a list of addresses, joined by commas; without a local part they go as they are.
  unfoldable pub answer_logins : Option Bytes × Bytes → List Bytes → Result Response
  answer_logins parts [] = returned not_found
  answer_logins (none, domain_name) (login ∷ logins) = returned (json (join (login ∷ logins)))
  answer_logins (some localpart, domain_name) (login ∷ logins) =
      answer_list idna (some (login ∷ logins))

  unfoldable pub sender_login : Bytes → Result Response
  sender_login sender = if unsupported_address idna false sender then returned not_found else (do
    parts ← resolve_domain idna db sender
    logins ← logins_of parts
    answer_logins parts logins)
