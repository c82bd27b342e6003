-- ===== src/Podop/Socketmap/Tests.antt =====
-- A lookup of Postfix.
use mailu.Prelude.{
  ◌≡◌, refl, none, some, List, [], ◌∷◌, arith, if◌then◌else◌, Bytes, codes, bytes_eq, decimal, has,
}
use mailu.Podop.Dict.{Found, found, missing}
use mailu.Podop.Netstring.{find, send_string}
use mailu.Podop.Socketmap.{Maps, answer, process_request, string_received}
use mailu.Podop.Socketmap.Answers.{Answered, serve-request}

abbrev relays : Bytes → Found
relays key = if bytes_eq key (codes "b.c") then found (codes "smtp:[10.0.0.1]") else missing

abbrev maps : Maps
maps = record {
  table_map = λ name. if bytes_eq name (codes "transport") then some relays else none;
  ascii = λ b. some b;
  utf8 = λ b. some b;
}

abbrev asked : List Bytes
asked = codes "13:tran" ∷ codes "sport b.c," ∷ []

serve-request_example : Answered maps asked (codes "transport") (codes "b.c")
unfolding send_string decimal has
serve-request_example =
    serve-request maps (codes "transport") (codes "b.c") (codes "transport") (codes "b.c") asked
      refl refl refl refl (omega arith)

-- of another key
absent_key : process_request maps (codes "transport") (codes "a") ≡ codes "9:NOTFOUND ,"
unfolding process_request answer bytes_eq send_string decimal
absent_key = refl

unknown_map :
    process_request maps (codes "users") (codes "a") ≡ send_string (codes "TEMP unknown error")
unfolding process_request answer bytes_eq
unknown_map = refl

no_space : string_received maps (codes "transport") ≡ some none
unfolding string_received find
no_space = refl
