-- ===== src/Metrics/Emitted.antt =====
-- Metrics that are made and sent one after the other, `ch <- prometheus.MustNewConstMetric(...)`, as
-- exporter/featurekit/ttl_cache_metrics.go and last_known_good_metrics.go there do. `accepts` is
-- client_golang's: whether `NewConstMetric` of a descriptor and label values has no error, where
-- `MustNewConstMetric` panics on one.
use prometheus_exporter_fram.Prelude.{
  ℕ, Bool, Option, none, some, List, [], ◌∷◌, Result, ok, err, length, nat_beq, All, arith, ◌≡◌,
  if◌then◌else◌,
}
use prometheus_exporter_fram.Text.{Text}
use prometheus_exporter_fram.Metrics.Values.{Metric}
use prometheus_exporter_fram.Metrics.Descriptors.{MetricPanic, invalid_const_metric}

-- what is sent, and the panic that ends it
abbrev pub Emitted : Type 0 → Type 0 → Type 0
Emitted D F = List (Metric D F) × Option MetricPanic

module _ {D F : Type 0} where
  unfoldable pub emit : (D → List Text → Bool) → List (Metric D F) → Emitted D F
  emit accepts [] = ([], none)
  emit accepts (m ∷ ms) =
      let (sent, panic) = emit accepts ms in
      if accepts m.desc m.label_values then (m ∷ sent, panic) else ([], some invalid_const_metric)

  -- what is sent with descriptors that were looked up before
  abbrev pub emit_with : {A : Type 0} → (A → Emitted D F) → Result MetricPanic A → Emitted D F
  emit_with send (err p) = ([], some p)
  emit_with send (ok descs) = send descs

  -- The descriptor of each of these metrics, with some labels, accepts as many values as there are
  -- labels, and no other number.
  abbrev pub CountsValues : (D → List Text → Bool) → ℕ → List (Metric D F) → Type 0
  CountsValues accepts n ms =
      All (λ m. accepts m.desc m.label_values ≡ nat_beq n (length m.label_values)) ms

  -- Metrics that all have `k` values: all of them are sent, or none.
  pub emit-CountsValues :
      (accepts : D → List Text → Bool) (n k : ℕ) (m : Metric D F) (ms : List (Metric D F))
      → CountsValues accepts n (m ∷ ms)
      → All (λ x. length x.label_values ≡ k) (m ∷ ms)
      → emit accepts (m ∷ ms)
        ≡ (if nat_beq n k then (m ∷ ms, none) else ([], some invalid_const_metric))
  unfolding emit
  emit-CountsValues accepts n k m [] (c, _) (l, _) = rw (c, l) (ground arith)
  emit-CountsValues accepts n k m (x ∷ ms) (c, cs) (l, ls) =
      rw (c, l, emit-CountsValues accepts n k x ms cs ls) (ground arith)
