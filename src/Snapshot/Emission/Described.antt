-- ===== src/Snapshot/Emission/Described.antt =====
-- What a collector writes of its own is what it describes.
use prometheus_exporter_fram.Prelude.{List, [], ◌∷◌}
use prometheus_exporter_fram.Snapshot.Emission.{
  Written, const_metric, const_histogram, CollectorDescs,
}

abbrev pub desc_of_written : {D F : Type 0} → Written D F → D
desc_of_written (const_metric m) = m.desc
desc_of_written (const_histogram desc count sum buckets) = desc

-- the descriptors of the collector's own metrics
abbrev own_descs : {D : Type 0} → CollectorDescs D → List D
own_descs descs =
    descs.last_collection_success_desc ∷ descs.last_collection_timestamp_desc
    ∷ descs.last_successful_collection_desc ∷ descs.collection_duration_desc ∷ []
