-- ===== src/Podop/Escape/Tests.antt =====
-- Runs of the escaping.
use mailu.Prelude.{◌≡◌, refl, [], ◌∷◌}
use mailu.Podop.Escape.{tabescape, tabunescape}
use mailu.Podop.Escape.RoundTrip.{tabunescape-tabescape}

tabescape_run :
    tabescape (1 ∷ b'1' ∷ 9 ∷ 1 ∷ b't' ∷ []) ≡ 1 ∷ b'1' ∷ b'1' ∷ 1 ∷ b't' ∷ 1 ∷ b'1' ∷ b't' ∷ []
unfolding tabescape
tabescape_run = refl

tabunescape-tabescape_example :
    tabunescape (tabescape (1 ∷ b't' ∷ 9 ∷ 0 ∷ [])) ≡ 1 ∷ b't' ∷ 9 ∷ 0 ∷ []
tabunescape-tabescape_example = tabunescape-tabescape (1 ∷ b't' ∷ 9 ∷ 0 ∷ [])
