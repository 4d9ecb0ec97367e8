-- ===== src/Snapshot/Emission.antt =====
-- What a `SnapshotCollector` describes and writes: `Describe` and `Collect`. The hooks are what the
-- feature's functions write; `new_desc` is `prometheus.NewDesc` of a name, a help text and labels.
pub mod Described
use prometheus_exporter_fram.Prelude.{
  ℕ, Bool, Option, none, some, List, [], ◌∷◌, ◌++◌, if◌then◌else◌, Eq,
}
use prometheus_exporter_fram.Clock.{Time}
use prometheus_exporter_fram.Text.{Text, codes}
use prometheus_exporter_fram.Assoc.{Assoc}
use prometheus_exporter_fram.Metrics.Values.{Metric, gauge, ValueOps, bool_float, unix_timestamp}
use prometheus_exporter_fram.Snapshot.Histogram.{FloatOps}
use prometheus_exporter_fram.Snapshot.Collector.{Config, State, View, default_string}
use prometheus_exporter_fram.Snapshot.Scrape.{current_snapshot}

-- A metric that is written: the arguments of `MustNewConstMetric` or of `MustNewConstHistogram`.
pub data Written (D F : Type 0) : Type 0 where
  const_metric : Metric D F → Written D F
  const_histogram : D → ℕ → F → Assoc F ℕ → Written D F

-- the help texts of the options
pub record Helps : Type 0 where
  pub last_collection_success_help : Text
  pub last_collection_timestamp_help : Text
  pub last_successful_collection_help : Text
  pub collection_duration_help : Text

pub record CollectorDescs (D : Type 0) : Type 0 where
  pub last_collection_success_desc : D
  pub last_collection_timestamp_desc : D
  pub last_successful_collection_desc : D
  pub collection_duration_desc : D

module _ {D : Type 0} where
  -- the descriptors that `NewSnapshotCollector` makes
  unfoldable pub new_descs : (Text → Text → List Text → D) → Text → Helps → CollectorDescs D
  new_descs new_desc namespace_name helps = record {
    last_collection_success_desc =
        new_desc (namespace_name ++ codes "_last_collection_success")
          (default_string helps.last_collection_success_help
            (codes "Whether the last collection succeeded"))
          [];
    last_collection_timestamp_desc =
        new_desc (namespace_name ++ codes "_last_collection_timestamp_seconds")
          (default_string helps.last_collection_timestamp_help
            (codes "Unix timestamp of the last collection attempt"))
          [];
    last_successful_collection_desc =
        new_desc (namespace_name ++ codes "_last_successful_collection_timestamp_seconds")
          (default_string helps.last_successful_collection_help
            (codes "Unix timestamp of the last successful collection"))
          [];
    collection_duration_desc =
        new_desc (namespace_name ++ codes "_collection_duration_seconds")
          (default_string helps.collection_duration_help
            (codes "Time spent refreshing collection data"))
          [];
  }

  abbrev pub hook_descs : Option (List D) → List D
  hook_descs none = []
  hook_descs (some descs) = descs

  -- `Describe`
  unfoldable pub describe : Option (List D) → CollectorDescs D → List D
  describe describe_func descs =
      hook_descs describe_func
      ++ descs.last_collection_success_desc ∷ descs.last_collection_timestamp_desc
        ∷ descs.last_successful_collection_desc ∷ descs.collection_duration_desc ∷ []

-- a gauge without labels
abbrev pub gauge_of : {D F : Type 0} → D → F → Written D F
gauge_of desc value =
    const_metric (record { desc = desc; type = gauge; value = value; label_values = [] })

module _ {S D F : Type 0} where
  abbrev pub hook_metrics : Option (S → Time → List (Written D F)) → S → Time → List (Written D F)
  hook_metrics none snapshot now = []
  hook_metrics (some collect_func) snapshot now = collect_func snapshot now

  -- what `Collect` writes of the state that it has read
  unfoldable pub write :
      ValueOps F
      → Option (S → Time → List (Written D F))
      → CollectorDescs D
      → Time
      → View S F
      → List (Written D F)
  write values collect_func descs now v =
      hook_metrics collect_func v.snapshot now
      ++ gauge_of descs.last_collection_success_desc (bool_float values v.status.success)
        ∷ gauge_of descs.last_collection_timestamp_desc
            (unix_timestamp values v.status.attempt_time)
        ∷ gauge_of descs.last_successful_collection_desc (unix_timestamp values v.last_successful)
        ∷ const_histogram descs.collection_duration_desc v.durations.count v.durations.sum
            v.durations.buckets
        ∷ []

module _ {S D F : Type 0} ⦃e : Eq F⦄ (ops : FloatOps F) (def_buckets : List F)
    (cfg : Config S) where
  -- `Collect`, with the readings of the clock around the snapshotter; `none` if it waits.
  unfoldable pub collect_metrics :
      ValueOps F
      → Option (S → Time → List (Written D F))
      → CollectorDescs D
      → State S F
      → Time
      → Time
      → Time
      → Option (State S F × List (Written D F))
  unfolding write
  collect_metrics values collect_func descs s now began ended =
      elim (current_snapshot ops def_buckets cfg s now began ended) [
        | none ↦ none
        | some (s', v) ↦ some (s', write values collect_func descs now v)
      ]
