-- ===== src/Config/Assembly/Names.antt =====
-- The names of the environments of the settings.
use pms_scanner.Prelude.{List, [], ◌∷◌, map, Text, All}
use pms_scanner.Config.{Environment}

abbrev pub names_of : List Environment → List Text
names_of = map (λ e. e.name)

-- From names to environments.
pub All-names {κ} :
    (P : Text → Type κ) (es : List Environment) → All P (names_of es) → All (λ e. P e.name) es
All-names P [] h = tt
All-names P (e ∷ es) h = (h.0, All-names P es h.1)
