-- ===== src/Session/Operations/Tests.antt =====
-- Runs of the sessions.
use mailu.Prelude.{
  ◌%◌, ◌≡◌, refl, inl, inr, true, false, none, some, [], ◌∷◌, ◌++◌, arith, length, Bytes, codes,
  bytes_eq, member, Dict,
}
use mailu.Session.Base64.{encode, decode, turn, decode_from}
use mailu.Session.{
  Store, keys, is_alive, pickled, plain, get, starts_with, list_keys, Config, uid_b64, key_min,
  key_max, zero_bytes, gen_uid, gen_sid, gen_created, bytes_of, from_bytes, is_current, Parts,
  parse_parts, parse_key,
}
use mailu.Session.Operations.{
  Session, user_key, token_key, new_session, open_session, sid, delete, destroy, identified, save,
  verify_temp_token, prune_sessions,
}
use mailu.Session.Operations.Saved.{IsHash, IsOwn, SavedAs, save-open_session}
use mailu.Session.Operations.Ended.{Regenerated, regenerate-Regenerated, destroy-Ended}
use mailu.Session.Operations.Tokens.{Live, verify_temp_token-Live}

-- a hash of eight bytes
abbrev eight : Bytes → Bytes
eight u = 1 ∷ 2 ∷ 3 ∷ 4 ∷ 5 ∷ 6 ∷ 7 ∷ length u % 256 ∷ []

abbrev config : Config
config = record { uid_hash = eight; uid_len = 8; sid_len = 4; lifetime = 3600; timeout = 600 }

abbrev random : Bytes
random = 200 ∷ 100 ∷ 50 ∷ 25 ∷ []

abbrev more_random : Bytes
more_random = 9 ∷ 8 ∷ 7 ∷ 6 ∷ []

config-IsHash : IsHash config
config-IsHash = record { hash_length = λ u. refl; hash_bytes = λ u. ground arith }

abbrev email : Bytes
email = codes "a@b.c"

abbrev login : Session
login = record {
  uid = none;
  sid_part = none;
  created = some (gen_created 1700000000);
  key = none;
  items = (user_key, email) ∷ (token_key, codes "token-x") ∷ [];
  is_new = true;
  modified = true;
}

login-IsOwn : IsOwn config 1700000000 login
login-IsOwn = record { made = refl; fits = omega arith; uid_own = inl refl; sid_own = inl refl }

save-open_session_example :
    (s' : Session) × (store' : Store) × SavedAs config 1700003000 1700003599 random login [] s'
      store'
unfolding is_current
save-open_session_example =
    save-open_session config 1700000000 1700003000 1700003599 random login [] config-IsHash
      (record { random_length = refl; random_bytes = refl }) login-IsOwn (omega arith) refl

abbrev cookie : Bytes
cookie = encode (eight email) ++ (encode random ++ encode (bytes_of 8 1700000000 []))

abbrev saved : Session
saved = record login {
  uid = some (encode (eight email));
  sid_part = some (encode random);
  key = some cookie;
}

abbrev store : Store
store =
    (codes "token-x", record { value = plain cookie; expires_at = some 1700003600 })
    ∷ (cookie, record { value = pickled saved.items; expires_at = some 1700000600 })
    ∷ []

saved-IsOwn : IsOwn config 1700000000 saved
unfolding gen_uid gen_sid
saved-IsOwn = record {
  made = refl;
  fits = omega arith;
  uid_own = inr (email, refl);
  sid_own = inr (random, refl, record { random_length = refl; random_bytes = refl });
}

-- a session that was destroyed has lost the time of its creation: it cannot be saved any more
not_again :
    save config 1700000001 random (record (destroy (saved, store)).0 { items = saved.items }, store)
    ≡ none
unfolding save destroy delete identified sid
not_again = refl

regenerate-Regenerated_example :
    (s' : Session) × (store' : Store) × Regenerated config 1700000001 1700000002 more_random cookie
      saved store s' store'
unfolding is_current encode bytes_eq identified sid gen_sid gen_created bytes_of
regenerate-Regenerated_example =
    regenerate-Regenerated config 1700000000 1700000001 1700000002 more_random cookie saved store
      config-IsHash (record { random_length = refl; random_bytes = refl }) saved-IsOwn (omega arith)
      refl refl refl refl

destroy-Ended_example :
    (open_session config 1700000001 (destroy (saved, store)).1 (some cookie)
      ≡ new_session 1700000001)
    × (verify_temp_token config 1700000001 (destroy (saved, store)).1 email (codes "token-x")
        ≡ false)
unfolding bytes_eq
destroy-Ended_example =
    destroy-Ended config 1700000001 saved store cookie (codes "token-x") email refl refl

abbrev cookie_parts : Parts
cookie_parts = record {
  uid = encode (eight email);
  sid = encode random;
  crt = encode (bytes_of 8 1700000000 []);
}

verify_temp_token-Live_example :
    (key : Bytes) × (parts : Parts) × (items : Dict Bytes) × Live config 1700000001 store email
      (codes "token-x")
      key
      parts
      items
unfolding verify_temp_token get is_alive open_session starts_with bytes_eq parse_key parse_parts
    key_min key_max uid_b64 zero_bytes encode decode decode_from turn from_bytes bytes_of is_current
verify_temp_token-Live_example =
    verify_temp_token-Live config 1700000001 store b'a' (codes "@b.c") (codes "token-x") refl

pruned :
    (prune_sessions config 1700000001 (some email) [] store).0
    ≡ (codes "token-x", record { value = plain cookie; expires_at = some 1700003600 }) ∷ []
unfolding keys is_alive prune_sessions list_keys gen_uid starts_with member encode bytes_of bytes_eq
pruned = refl

abbrev without_token : Session
without_token = record saved { items = (user_key, email) ∷ [] }
