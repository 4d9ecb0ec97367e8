-- ===== src/Files/Metrics/Once.antt =====
-- How often a file's metrics write each descriptor.
use prometheus_exporter_fram.Prelude.{ℕ, ◌+◌, Bool, List, [], ◌∷◌, if◌then◌else◌}
use prometheus_exporter_fram.Text.{Text}
use prometheus_exporter_fram.Metrics.Values.{Metric}

module _ {A : Type 0} (p : A → Bool) where
  pub times : List A → ℕ
  times [] = 0
  times (x ∷ xs) = (if p x then 1 else 0) + times xs

module _ {D F : Type 0} (p : D → Bool) where
  abbrev pub times_written : List (Metric D F) → ℕ
  times_written ms = times (λ m. p m.desc) ms
