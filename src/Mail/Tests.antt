-- ===== src/Mail/Tests.antt =====
-- Runs of the lookups on a small table, and the theorems at it.
use mathlib.Core.List.{Memᴰ}
use mathlib.Core.List.Memᴰ.{head, tail}
use mailu.Prelude.{
  ◌≡◌, refl, sym, subst, ◌≢◌, ◌↔◌, Bool, true, false, not, ◌&&◌, ◌||◌, none, some, List, [], ◌∷◌,
  arith, ◌==◌, if◌then◌else◌, all, Bytes, codes, bytes_eq, decimal, is_digit, split_on, has, member,
  rsplit, count, lower,
}
use mailu.Mail.{
  returned, raised, Idna, User, Alias, Alternative, Relay, Db, bind_domain, read_domain, bind_email,
  read_email, convert_email, read_all, get_user, get_alternative, get_relay,
}
use mailu.Mail.Bind.{IsIdna}
use mailu.Mail.Columns.{
  comma_read, strip, lstrip, rstrip, is_empty, join, sorted_set, insert_item, text_lt,
}
use mailu.Mail.Resolve.{
  owner_enabled, top, choose_case, mailbox_destination, alias_destination, stripped_destination,
  is_active, matches_case, matches_lower, lower_given, sorts_before, destinations, append_detail,
  strip_detail, find_mailbox, resolve_alias, resolve_domain, resolve_destination, split_address,
}
use mailu.Mail.Resolve.Aliases.{Resolved, resolve_alias-Resolved, resolve_alias-found}
use mailu.Mail.Resolve.Destination.{encodes, Deliverable}
use mailu.Mail.Postfix.{
  json, not_found, Settings, is_bracketed, ends_bracket, drop_char, encode_address, idna_encode,
  answer_list, alias_of, answer_logins, spoofers, unsupported_address, alias_map, sender_login,
  logins_of, wildcard_list, cut_detail,
}
use mailu.Mail.Postfix.AliasMap.{IsName, alias_map-ne-raised, alias_map-raised}
use mailu.Mail.Postfix.Transport.{
  is_literal, transport, answer_relay, answer_target, strip_prefix, after_prefix, split_port,
  default_host, encode_host, port_suffix, int_text, int_digits, show_transport,
}
use mailu.Mail.Postfix.Transport.Targets.{transport-raised_iff}

-- an encoding of lower case names only, by themselves
lower_case : Bytes → Bool
lower_case d = bytes_eq (lower d) d && count b'@' d == 0

abbrev idna : Idna
idna = record { encode = λ d. if lower_case d then some d else none; decode = λ k. some k }

abbrev like : Bytes → Bytes → Bool
like text pattern = bytes_eq pattern (codes "%") || bytes_eq pattern text

abbrev org : Bytes
org = codes "ex.org"

abbrev ann : User
ann = record {
  email = codes "ann@ex.org";
  domain_name = org;
  enabled = true;
  allow_spoofing = true;
  forward_enabled = false;
  forward_destination = [];
  forward_keep = true;
}

abbrev info : Alias
info = record {
  localpart = codes "info";
  domain_name = org;
  wildcard = false;
  destination = codes "ann@ex.org,bob@ex.net";
  owner_email = some (codes "ann@ex.org");
  disabled = false;
}

abbrev rest : Alias
rest = record {
  localpart = codes "%";
  domain_name = org;
  wildcard = true;
  destination = codes "ann@ex.org";
  owner_email = none;
  disabled = false;
}

abbrev out : Relay
out = record { name = codes "out.org"; smtp = none }

abbrev back : Relay
back = record { name = codes "back.org"; smtp = some (codes "LMTP:Host:24") }

abbrev other : Alternative
other = record { name = codes "ex.com"; domain_name = org }

abbrev db : Db
db = record {
  domains = org ∷ [];
  alternatives = other ∷ [];
  relays = out ∷ back ∷ [];
  users = ann ∷ [];
  aliases = rest ∷ info ∷ [];
}

abbrev settings : Settings
settings = record {
  environ_delimiter = codes "+";
  recipient_delimiter = codes "+";
  wildcard_senders = codes "Root@ex.org, ";
  ratelimit_exemption = [];
}

to_mailbox :
    alias_map idna like settings db (codes "Ann+x@ex.com") ≡ returned (json (codes "Ann+x@ex.org"))
unfolding bytes_eq has member split_on count rsplit lower bind_domain read_domain bind_email
    read_email convert_email get_user get_alternative comma_read strip lstrip rstrip is_empty join
    split_address strip_detail append_detail mailbox_destination find_mailbox resolve_domain
    resolve_destination owner_enabled matches_case matches_lower lower_given is_active sorts_before
    top choose_case resolve_alias alias_destination stripped_destination unsupported_address
    encode_address idna_encode answer_list alias_of alias_map lower_case
to_mailbox = refl

to_alias :
    alias_map idna like settings db (codes "Info+x@ex.org")
    ≡ returned (json (codes "ann+x@ex.org,bob+x@ex.net"))
unfolding bytes_eq has member split_on count rsplit lower bind_domain read_domain bind_email
    read_email convert_email get_user get_alternative comma_read strip lstrip rstrip is_empty join
    split_address strip_detail append_detail mailbox_destination find_mailbox resolve_domain
    resolve_destination owner_enabled matches_case matches_lower lower_given is_active sorts_before
    top choose_case resolve_alias alias_destination stripped_destination unsupported_address
    encode_address idna_encode answer_list alias_of alias_map lower_case
to_alias = refl

to_wildcard :
    alias_map idna like settings db (codes "no@ex.org") ≡ returned (json (codes "ann@ex.org"))
unfolding bytes_eq has member split_on count rsplit lower bind_domain read_domain bind_email
    read_email convert_email get_user get_alternative comma_read strip lstrip rstrip is_empty join
    split_address strip_detail append_detail mailbox_destination find_mailbox resolve_domain
    resolve_destination owner_enabled matches_case matches_lower lower_given is_active sorts_before
    top choose_case resolve_alias alias_destination stripped_destination unsupported_address
    encode_address idna_encode answer_list alias_of alias_map lower_case
to_wildcard = refl

two_signs : alias_map idna like settings db (codes "a@b@ex.org") ≡ returned not_found
unfolding bytes_eq has member split_on count rsplit lower bind_domain read_domain bind_email
    read_email convert_email get_user get_alternative comma_read strip lstrip rstrip is_empty join
    split_address strip_detail append_detail mailbox_destination find_mailbox resolve_domain
    resolve_destination owner_enabled matches_case matches_lower lower_given is_active sorts_before
    top choose_case resolve_alias alias_destination stripped_destination unsupported_address
    encode_address idna_encode answer_list alias_of alias_map lower_case
two_signs = refl

logins :
    sender_login idna like settings db (codes "info+x@ex.org")
    ≡ returned (json (codes "ann@ex.org,bob@ex.net,root@ex.org"))
unfolding bytes_eq has member split_on count rsplit lower bind_domain read_domain bind_email
    read_email convert_email get_user get_alternative comma_read strip lstrip rstrip is_empty join
    split_address strip_detail append_detail mailbox_destination find_mailbox resolve_domain
    resolve_destination owner_enabled matches_case matches_lower lower_given is_active sorts_before
    top choose_case resolve_alias alias_destination stripped_destination unsupported_address
    encode_address idna_encode answer_list alias_of alias_map lower_case sender_login logins_of
    answer_logins spoofers read_all wildcard_list drop_char cut_detail sorted_set insert_item
    text_lt
logins = refl

with_port : transport idna db (codes "bob@back.org") ≡ returned (json (codes "lmtp:host:24"))
unfolding bytes_eq has member split_on count rsplit lower bind_domain read_domain bind_email
    read_email convert_email get_user get_alternative comma_read strip lstrip rstrip is_empty join
    split_address strip_detail append_detail mailbox_destination find_mailbox resolve_domain
    resolve_destination owner_enabled matches_case matches_lower lower_given is_active sorts_before
    top choose_case resolve_alias alias_destination stripped_destination unsupported_address
    encode_address idna_encode answer_list alias_of alias_map lower_case transport get_relay
    is_literal is_bracketed ends_bracket answer_relay answer_target strip_prefix after_prefix
    split_port default_host encode_host port_suffix int_text int_digits show_transport decimal
    is_digit
with_port = refl

encoded_same : (d k : Bytes) → idna.encode d ≡ some k → d ≡ k
encoded_same d k e = ground arith

encoded_plain : (d k : Bytes) → idna.encode d ≡ some k → count b'@' d ≡ 0
unfolding lower_case
encoded_plain d k e = ground arith

plain : (d k : Bytes) → idna.encode d ≡ some k → count b'@' k ≡ 0
plain d k e = subst (λ x. count b'@' x ≡ 0) (encoded_same d k e) (encoded_plain d k e)

IsIdna-idna : IsIdna idna
unfolding lower_case
IsIdna-idna = record { decodes = λ d k e. (k, refl); plain = plain }

resolve_alias-Resolved_example : Resolved idna like db (some (codes "Info")) org info
unfolding bytes_eq has member split_on count rsplit lower bind_domain read_domain bind_email
    read_email convert_email get_user get_alternative comma_read strip lstrip rstrip is_empty join
    split_address strip_detail append_detail mailbox_destination find_mailbox resolve_domain
    resolve_destination owner_enabled matches_case matches_lower lower_given is_active sorts_before
    top choose_case resolve_alias alias_destination stripped_destination unsupported_address
    encode_address idna_encode answer_list alias_of alias_map lower_case
resolve_alias-Resolved_example =
    resolve_alias-Resolved idna like db (some (codes "Info")) org info refl

names : (a : Alternative) → Memᴰ a db.alternatives → IsName idna a.domain_name
unfolding bytes_eq has member split_on count rsplit lower bind_domain read_domain bind_email
    read_email convert_email get_user get_alternative comma_read strip lstrip rstrip is_empty join
    split_address strip_detail append_detail mailbox_destination find_mailbox resolve_domain
    resolve_destination owner_enabled matches_case matches_lower lower_given is_active sorts_before
    top choose_case resolve_alias alias_destination stripped_destination unsupported_address
    encode_address idna_encode answer_list alias_of alias_map lower_case
names a (head e) =
    subst (λ (b : Alternative). IsName idna b.domain_name) (sym e)
      (record { name = org; key = org; reads = refl; plain = refl; bound = refl; typed = refl })
names a (tail m) = elim m [ ]

forwards :
    (u : User) → Memᴰ u db.users → all (encodes idna) (comma_read u.forward_destination) ≡ true
unfolding bytes_eq has member split_on count rsplit lower bind_domain read_domain bind_email
    read_email convert_email get_user get_alternative comma_read strip lstrip rstrip is_empty join
    split_address strip_detail append_detail mailbox_destination find_mailbox resolve_domain
    resolve_destination owner_enabled matches_case matches_lower lower_given is_active sorts_before
    top choose_case resolve_alias alias_destination stripped_destination unsupported_address
    encode_address idna_encode answer_list alias_of alias_map lower_case encodes
forwards u (head e) =
    subst (λ (v : User). all (encodes idna) (comma_read v.forward_destination) ≡ true) (sym e) refl
forwards u (tail m) = elim m [ ]

redirects : (a : Alias) → Memᴰ a db.aliases → all (encodes idna) (destinations a) ≡ true
unfolding bytes_eq has member split_on count rsplit lower bind_domain read_domain bind_email
    read_email convert_email get_user get_alternative comma_read strip lstrip rstrip is_empty join
    split_address strip_detail append_detail mailbox_destination find_mailbox resolve_domain
    resolve_destination owner_enabled matches_case matches_lower lower_given is_active sorts_before
    top choose_case resolve_alias alias_destination stripped_destination unsupported_address
    encode_address idna_encode answer_list alias_of alias_map lower_case encodes
redirects a (head e) =
    subst (λ (b : Alias). all (encodes idna) (destinations b) ≡ true) (sym e) refl
redirects a (tail (head e)) =
    subst (λ (b : Alias). all (encodes idna) (destinations b) ≡ true) (sym e) refl
redirects a (tail (tail m)) = elim m [ ]

deliverable : Deliverable idna db
deliverable = record { forwards = forwards; redirects = redirects }

alias_map-ne-raised_example : alias_map idna like settings db (codes "info+x@ex.org") ≢ raised
unfolding bytes_eq has member split_on count rsplit lower bind_domain read_domain bind_email
    read_email convert_email get_user get_alternative comma_read strip lstrip rstrip is_empty join
    split_address strip_detail append_detail mailbox_destination find_mailbox resolve_domain
    resolve_destination owner_enabled matches_case matches_lower lower_given is_active sorts_before
    top choose_case resolve_alias alias_destination stripped_destination unsupported_address
    encode_address idna_encode answer_list alias_of alias_map lower_case
alias_map-ne-raised_example =
    alias_map-ne-raised idna like settings db names deliverable (codes "info+x@ex.org") refl

two_items : List Bytes
two_items = codes "b" ∷ codes "a" ∷ codes "b" ∷ []

same_members : (z : Bytes) → member z two_items ≡ member z (codes "a" ∷ codes "b" ∷ [])
unfolding member two_items
same_members z = ground arith

transport-raised_iff_example :
    (transport idna db (codes "bob@out.org") ≡ raised) ↔ (out.smtp ≡ none)
unfolding bytes_eq has member split_on count rsplit lower bind_domain read_domain bind_email
    read_email convert_email get_user get_alternative comma_read strip lstrip rstrip is_empty join
    split_address strip_detail append_detail mailbox_destination find_mailbox resolve_domain
    resolve_destination owner_enabled matches_case matches_lower lower_given is_active sorts_before
    top choose_case resolve_alias alias_destination stripped_destination unsupported_address
    encode_address idna_encode answer_list alias_of alias_map lower_case is_literal is_bracketed
    ends_bracket get_relay
transport-raised_iff_example =
    transport-raised_iff idna db (codes "bob@out.org") (some (codes "bob")) (codes "out.org")
      (codes "out.org") out refl refl refl refl refl refl

alias_map-raised_example : alias_map idna like settings db (codes "ann@EX.org") ≡ raised
unfolding bytes_eq has member split_on count rsplit lower bind_domain read_domain bind_email
    read_email convert_email get_user get_alternative comma_read strip lstrip rstrip is_empty join
    split_address strip_detail append_detail mailbox_destination find_mailbox resolve_domain
    resolve_destination owner_enabled matches_case matches_lower is_active sorts_before top
    choose_case resolve_alias alias_destination stripped_destination unsupported_address
    encode_address idna_encode answer_list alias_of alias_map lower_case
alias_map-raised_example =
    alias_map-raised idna like settings db (codes "ann") (codes "EX.org") ann refl refl refl refl
      refl refl

resolve_alias-found_example :
    (b : Alias) × (resolve_alias idna like db (some (codes "info")) org ≡ returned (some b))
    × ((not info.wildcard && b.wildcard) ≡ false)
unfolding bytes_eq has member split_on count rsplit lower bind_domain read_domain bind_email
    read_email convert_email get_user get_alternative comma_read strip lstrip rstrip is_empty join
    split_address strip_detail append_detail mailbox_destination find_mailbox resolve_domain
    resolve_destination owner_enabled matches_case matches_lower is_active sorts_before top
    choose_case resolve_alias alias_destination stripped_destination unsupported_address
    encode_address idna_encode answer_list alias_of alias_map lower_case
resolve_alias-found_example =
    resolve_alias-found idna like db (some (codes "info")) org org info refl (tail (head refl)) refl
      refl
