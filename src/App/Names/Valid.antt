-- ===== src/App/Names/Valid.antt =====
-- Exactly the metric names pass the check of a namespace, and the defaults leave nothing empty.
use prometheus_exporter_fram.Prelude.{
  ℕ, true, false, none, [], ◌∷◌, ◌≡◌, ◌↔◌, refl, ==_iff, list_eq, nat_eq, all, arith, any,
  if◌then◌else◌,
}
use prometheus_exporter_fram.Text.{Text, is_empty, is_space, trim_space, trim_space_visible}
use prometheus_exporter_fram.App.Names.{
  Config, normalized, may_start, may_follow, scan, validate_metric_namespace, IsName, name,
}

visible : (r : ℕ) → may_follow r ≡ true → is_space r ≡ false
unfolding may_follow is_space
visible r h = ground arith

may_start-may_follow : (r : ℕ) → may_start r ≡ true → may_follow r ≡ true
unfolding may_follow
may_start-may_follow r h = ground arith

all-visible : (s : Text) → all may_follow s ≡ true → any is_space s ≡ false
all-visible [] h = refl
all-visible (r ∷ s) h = ground (arith, visible r, all-visible s)

scan-all : (s : Text) → scan false s ≡ none → all may_follow s ≡ true
unfolding scan
scan-all [] h = refl
scan-all (r ∷ s) h = ground (arith, scan-all s)

all-scan : (s : Text) → all may_follow s ≡ true → scan false s ≡ none
unfolding scan
all-scan [] h = refl
all-scan (r ∷ s) h = ground (arith, all-scan s)

IsName-of : (s : Text) → validate_metric_namespace s ≡ none → IsName s
unfolding validate_metric_namespace scan
IsName-of [] h = absurd (unfold trim_space in ground arith)
IsName-of (r ∷ s) h = name r s (ground arith) (scan-all s (ground arith))

of_name : {s : Text} → IsName s → validate_metric_namespace s ≡ none
unfolding validate_metric_namespace scan
of_name (name r s h t) =
    let trimmed : trim_space (r ∷ s) ≡ r ∷ s =
      trim_space_visible (r ∷ s)
        (ground (arith, visible r, may_start-may_follow r, all-visible s)) in
    rw (trimmed, (==_iff (r ∷ s) (r ∷ s)).1 refl, h) (all-scan s t)

-- A namespace passes the check exactly if it is a letter or underscore followed by letters, digits
-- and underscores.
pub validate_metric_namespace_iff : (s : Text) → (validate_metric_namespace s ≡ none) ↔ IsName s
validate_metric_namespace_iff s = (IsName-of s, of_name)

-- The defaults: no field is empty, an absent namespace is the resolved name and a given one stays,
-- and normalizing again changes nothing.
pub normalized_lem :
    {Feature : Type 0} (c : Config Feature)
    → (is_empty (normalized c).name ≡ false)
      × (is_empty (normalized c).namespace ≡ false)
      × (is_empty (normalized c).description ≡ false)
      × (is_empty (normalized c).default_listen_address ≡ false)
      × (is_empty (normalized c).default_metrics_path ≡ false)
      × ((normalized c).namespace
          ≡ (if is_empty c.namespace then (normalized c).name else c.namespace))
      × (normalized (normalized c) ≡ normalized c)
unfolding normalized
normalized_lem c = ground arith
