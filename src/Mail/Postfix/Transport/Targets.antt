-- ===== src/Mail/Postfix/Transport/Targets.antt =====
-- Relays with and without a target.
use mailu.Prelude.{◌≡◌, subst, ◌↔◌, false, Option, none, some, arith, Bytes, codes, bytes_eq}
use mailu.Mail.{returned, raised, Idna, Relay, Db, read_domain, get_relay}
use mailu.Mail.Resolve.{resolve_domain}
use mailu.Mail.Postfix.{unsupported_address}
use mailu.Mail.Postfix.Transport.{is_literal, answer_relay, transport}

module _ (idna : Idna) where
  answer_relay_iff :
      (r : Relay) (name : Bytes)
      → read_domain idna r.name ≡ returned name
      → (answer_relay idna r ≡ raised) ↔ (r.smtp ≡ none)
  unfolding answer_relay
  answer_relay_iff r name reads = (λ h. ground arith, λ h. ground arith)

  -- The lookup of a transport under a relayed domain ends in an exception exactly when the relay has no
  -- target, which its column allows.
  pub transport-raised_iff :
      (db : Db) (email : Bytes) (localpart : Option Bytes) (domain_name name : Bytes) (r : Relay)
      → unsupported_address idna false email ≡ false
      → bytes_eq email (codes "*") ≡ false
      → is_literal email ≡ false
      → resolve_domain idna db email ≡ returned (localpart, domain_name)
      → get_relay idna db domain_name ≡ returned (some r)
      → read_domain idna r.name ≡ returned name
      → (transport idna db email ≡ raised) ↔ (r.smtp ≡ none)
  unfolding transport
  transport-raised_iff db email localpart domain_name name r supported star literal resolved found
        reads =
      subst (λ t. (t ≡ raised) ↔ (r.smtp ≡ none)) (ground arith) (answer_relay_iff r name reads)
