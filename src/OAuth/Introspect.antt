-- ===== src/OAuth/Introspect.antt =====
-- core/admin/mailu/internal/views/oauth2.py: the introspection of an access token, by which the mail
-- services decide on a login. The issuer in the answer is not modelled.
pub mod Active
pub mod Ended
use mailu.Prelude.{
  ℕ, Bool, true, false, not, ◌&&◌, ◌||◌, Option, none, some, [], ◌∷◌, leb, ◌==◌, if◌then◌else◌,
  Bytes, codes, bytes_eq, member, words,
}
use mailu.OAuth.{Crypto, Grant, User, Db, find_user, find_grant}
use mailu.OAuth.Token
use mailu.OAuth.Token.{Kind, access}

pub record Claims : Type 0 where
  pub email : Bytes
  pub claimed_client : Bytes
  pub claimed_scope : Bytes
  pub exp : ℕ
  pub port : ℕ

pub data Answer : Type 0 where
  inactive : Answer
  active : Claims → Answer

unfoldable pub required_scope : Bytes → Option Bytes
required_scope protocol =
    if bytes_eq protocol (codes "imap")
    then some (codes "imap")
    else if bytes_eq protocol (codes "smtp")
    then some (codes "smtp")
    else if bytes_eq protocol (codes "submission")
    then some (codes "smtp")
    else if bytes_eq protocol (codes "pop3")
    then some (codes "pop3")
    else if bytes_eq protocol (codes "sieve")
    then some (codes "sieve")
    else none

unfoldable pub protocol_port : Option Bytes → ℕ
protocol_port none = 143
protocol_port (some protocol) =
    if bytes_eq protocol (codes "smtp")
    then 10025
    else if bytes_eq protocol (codes "submission")
    then 2587
    else if bytes_eq protocol (codes "pop3")
    then 110
    else if bytes_eq protocol (codes "sieve")
    then 4190
    else 143

-- the scope and the user's switches, for the protocol of the header; none is a missing header
unfoldable pub protocol_enabled : Option Bytes → Grant → User → Bool
protocol_enabled none g u = true
protocol_enabled (some protocol) g u =
    elim (required_scope protocol) [ none ↦ false | some scope ↦ member scope (words g.scope) ]
    && not (bytes_eq protocol (codes "imap") && not u.enable_imap)
    && not (bytes_eq protocol (codes "pop3") && not u.enable_pop)

answer_user : ℕ → Option Bytes → ℕ → Grant → Option User → Answer
unfolding protocol_enabled
answer_user now protocol n g none = inactive
answer_user now protocol n g (some u) =
    if not (n == g.token_generation)
    then inactive
    else if leb g.access_expires_at now || not u.enabled || not (protocol_enabled protocol g u)
    then inactive
    else active (record {
      email = u.email;
      claimed_client = g.client;
      claimed_scope = g.scope;
      exp = g.access_expires_at;
      port = protocol_port protocol;
    })

answer_grant : ℕ → Option Bytes → Db → ℕ → Option Grant → Answer
answer_grant now protocol db n none = inactive
answer_grant now protocol db n (some g) = answer_user now protocol n g (find_user g.user_email db)

unfoldable pub answer_parsed : ℕ → Option Bytes → Db → Option (Kind × Bytes × ℕ) → Answer
unfolding answer_grant answer_user
answer_parsed now protocol db none = inactive
answer_parsed now protocol db (some (kind, grant_id, n)) =
    answer_grant now protocol db n (find_grant grant_id db)

-- an empty or missing token parses as none
unfoldable pub introspect : Crypto → ℕ → Option Bytes → Bytes → Db → Answer
unfolding answer_parsed answer_grant answer_user
introspect crypto now protocol raw_token db = elim raw_token [
  | [] ↦ inactive
  | c ∷ cs ↦ answer_parsed now protocol db (Token.parse crypto.mac (some access) (c ∷ cs))
]
