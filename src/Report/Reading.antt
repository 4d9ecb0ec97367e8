-- ===== src/Report/Reading.antt =====
-- Reading a report that is made of parts.
use prometheus_exporter_fram.Prelude.{
  Option, none, some, List, [], ◌∷◌, ◌++◌, ◌≡◌, refl, ◌==◌, list_eq, nat_eq, if◌then◌else◌,
}
use prometheus_exporter_fram.Text.{Text}
use prometheus_exporter_fram.Report.{Any, text, runtime_config_value}

-- A report of keys with values: every second element from the first is a text.
abbrev pub settings : List (Text × Any) → List Any
settings [] = []
settings ((k, v) ∷ rest) = text k ∷ v ∷ settings rest

-- the value of the first setting with the key
abbrev pub setting : List (Text × Any) → Text → Option Any
setting [] key = none
setting ((k, v) ∷ rest) key = let later = setting rest key in if k == key then some v else later

pub value-settings :
    (s : List (Text × Any)) (key : Text) → runtime_config_value (settings s) key ≡ setting s key
unfolding runtime_config_value
value-settings [] key = refl
value-settings ((k, v) ∷ rest) key = rw (value-settings rest key) refl

pub settings-append : (s t : List (Text × Any)) → settings (s ++ t) ≡ settings s ++ settings t
settings-append [] t = refl
settings-append ((k, v) ∷ s) t = rw (settings-append s t) refl
