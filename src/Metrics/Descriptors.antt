-- ===== src/Metrics/Descriptors.antt =====
-- exporter/featurekit/metrics.go: the specs of a feature's metrics, the descriptors loaded from
-- them and the names. A panic is an error; `D` is the type of `*prometheus.Desc`, and `new_desc`
-- is `prometheus.NewDesc` of a name, a help text and labels, which never returns `nil`.
pub mod Loading
use prometheus_exporter_fram.Prelude.{
  ℕ, suc, Bool, true, false, ◌||◌, Option, none, some, List, [], ◌∷◌, ◌++◌, ◌==◌, list_eq, nat_eq,
  any, Result, ok, err, ◌>>=◌, ◌>>◌, if◌then◌else◌,
}
use prometheus_exporter_fram.Text.{Text, is_empty}
use prometheus_exporter_fram.Assoc.{Assoc, lookup, insert}

pub data MetricScope : Type 0 where
  unset : MetricScope
  feature : MetricScope
  namespace : MetricScope
  absolute : MetricScope

pub record MetricSpec : Type 0 where
  pub id : Text
  pub scope : MetricScope
  pub name : Text
  pub help : Text
  pub labels : List Text

-- the panics, with what their messages show
pub data MetricPanic : Type 0 where
  empty_id : ℕ → MetricPanic
  duplicate_id : Text → MetricPanic
  empty_name : Text → MetricPanic
  duplicate_name : Text → Text → Text → MetricPanic
  unknown_descriptor : Text → MetricPanic
  unknown_metric : Text → MetricPanic
  source_required : MetricPanic
  -- of `MustNewConstMetric`
  invalid_const_metric : MetricPanic

-- `FeatureMetricDescriptors`
pub record Descriptors (D : Type 0) : Type 0 where
  pub order : List Text
  pub descs : Assoc Text D

-- `MetricName`; the scope is read for its prefix.
abbrev pub scope_prefix : MetricScope → Text → Text → Text
scope_prefix unset feature_name namespace_name = []
scope_prefix feature feature_name namespace_name = feature_name
scope_prefix namespace feature_name namespace_name = namespace_name
scope_prefix absolute feature_name namespace_name = []

unfoldable pub metric_name : Text → Text → MetricSpec → Text
metric_name feature_name namespace_name s =
    scope_prefix s.scope feature_name namespace_name ++ s.name

abbrev pub mem : Text → List Text → Bool
mem x xs = any (λ y. y == x) xs

-- `validateFeatureMetricSpecs`, from the spec at `index`, with the IDs seen before
unfoldable pub validate_specs : ℕ → List Text → List MetricSpec → Result MetricPanic Unit
validate_specs index seen [] = ok tt
validate_specs index seen (s ∷ specs) =
    let rest = validate_specs (suc index) (s.id ∷ seen) specs in
    if is_empty s.id
    then err (empty_id index)
    else if mem s.id seen
    then err (duplicate_id s.id)
    else rest

module _ {D : Type 0} (new_desc : Text → Text → List Text → D)
    (feature_name namespace_name : Text) where
  -- the descriptor of a spec
  abbrev pub desc_of : MetricSpec → D
  desc_of s = new_desc (metric_name feature_name namespace_name s) s.help s.labels

  -- the loop of `LoadFeatureMetricDescriptors`
  unfoldable pub load_loop :
      Assoc Text Text → Descriptors D → List MetricSpec → Result MetricPanic (Descriptors D)
  load_loop seen_names metrics [] = ok metrics
  load_loop seen_names metrics (s ∷ specs) =
      let name = metric_name feature_name namespace_name s in
      let rest =
        load_loop (insert name s.id seen_names)
          (record {
            order = metrics.order ++ s.id ∷ [];
            descs = insert s.id (desc_of s) metrics.descs;
          })
          specs in
      if is_empty name then err (empty_name s.id) else elim (lookup name seen_names) [
        | none ↦ rest
        | some previous_id ↦ err (duplicate_name name previous_id s.id)
      ]

  -- `LoadFeatureMetricDescriptors`
  unfoldable pub load : List MetricSpec → Result MetricPanic (Descriptors D)
  load specs = validate_specs 0 [] specs >> load_loop [] (record { order = []; descs = [] }) specs

-- `Get`
unfoldable pub get_desc : {D : Type 0} → Descriptors D → Text → Result MetricPanic D
get_desc d id = elim (lookup id d.descs) [
  | none ↦ err (unknown_descriptor id)
  | some desc ↦ ok desc
]

-- `Describe`: what is sent if nothing panics
unfoldable pub describe_loop :
    {D : Type 0} → Descriptors D → List Text → Result MetricPanic (List D)
describe_loop d [] = ok []
describe_loop d (id ∷ order) =
    get_desc d id >>= λ desc. describe_loop d order >>= λ descs. ok (desc ∷ descs)

unfoldable pub describe : {D : Type 0} → Descriptors D → Result MetricPanic (List D)
describe d = describe_loop d d.order

-- `FeatureMetricName`
unfoldable pub feature_metric_name : Text → Text → Text → List MetricSpec → Result MetricPanic Text
feature_metric_name feature_name namespace_name id [] = err (unknown_metric id)
feature_metric_name feature_name namespace_name id (s ∷ specs) =
    let rest = feature_metric_name feature_name namespace_name id specs in
    if s.id == id then ok (metric_name feature_name namespace_name s) else rest
