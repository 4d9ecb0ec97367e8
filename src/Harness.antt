-- ===== src/Harness.antt =====
-- exporter/exportertest/exportertest.go: what tests read of gathered metrics. A test that ends with a
-- message has the result `none`. `F` are the values, `H` the histograms.
pub mod FeatureSuite
pub mod Smoke
use prometheus_exporter_fram.Prelude.{
  ℕ, zero, suc, Bool, true, false, not, ◌&&◌, Option, none, some, List, [], ◌∷◌, ◌==◌, list_eq,
  nat_eq, all, any, Eq, if◌then◌else◌,
}
use prometheus_exporter_fram.Assoc.{Assoc, has}
use prometheus_exporter_fram.Clock.{Time, Duration, is_positive, add, before}
use prometheus_exporter_fram.Text.{Text, is_empty}

-- `dto.Metric`: its labels, and the values of the kinds that it may have
pub record GatheredMetric (F H : Type 0) : Type 0 where
  pub labels : List (Text × Text)
  pub gauge : Option F
  pub counter : Option F
  pub untyped : Option F
  pub histogram : Option H

-- `dto.MetricFamily`
pub record Family (F H : Type 0) : Type 0 where
  pub name : Text
  pub metrics : List (GatheredMetric F H)

-- the `switch` of `MetricValue`
abbrev pub value_of : {F : Type 0} → Option F → Option F → Option F → Option F
value_of (some gauge) counter untyped = some gauge
value_of none (some counter) untyped = some counter
value_of none none untyped = untyped

abbrev pub is_value : {F : Type 0} ⦃e : Eq F⦄ → Option F → F → Bool
is_value none want = false
is_value (some got) want = got == want

module _ {F H : Type 0} where
  -- `LabelsMatch`, of a metric that is there; `want` is a map
  unfoldable pub labels_match : GatheredMetric F H → Assoc Text Text → Bool
  labels_match metric want =
      all (λ w. any (λ label. label.0 == w.0 && label.1 == w.1) metric.labels) want

  -- `metricFamily`, and `MetricFamily`, which ends the test without one
  unfoldable pub metric_family : List (Family F H) → Text → Option (Family F H)
  metric_family [] name = none
  metric_family (family ∷ families) name =
      let rest = metric_family families name in if family.name == name then some family else rest

  unfoldable pub first_match :
      List (GatheredMetric F H) → Assoc Text Text → Option (GatheredMetric F H)
  unfolding labels_match
  first_match [] labels = none
  first_match (metric ∷ metrics) labels =
      let rest = first_match metrics labels in
      if labels_match metric labels then some metric else rest

  -- `Metric`
  unfoldable pub metric : List (Family F H) → Text → Assoc Text Text → Option (GatheredMetric F H)
  unfolding metric_family first_match
  metric families name labels = elim (metric_family families name) [
    | none ↦ none
    | some family ↦ first_match family.metrics labels
  ]

  -- `MetricValue`
  unfoldable pub metric_value : List (Family F H) → Text → Assoc Text Text → Option F
  unfolding metric
  metric_value families name labels = elim (metric families name labels) [
    | none ↦ none
    | some m ↦ value_of m.gauge m.counter m.untyped
  ]

  -- `AssertMetricExists` and `AssertMetricLabelPresent`: whether the test goes on
  unfoldable pub assert_metric_exists : List (Family F H) → Text → Assoc Text Text → Bool
  unfolding metric
  assert_metric_exists families name labels = has (metric families name labels)

  unfoldable pub assert_metric_label_present :
      List (Family F H) → Text → Assoc Text Text → Text → Bool
  unfolding metric
  assert_metric_label_present families name labels label_name = elim (metric families name labels) [
    | none ↦ false
    | some m ↦ any (λ label. label.0 == label_name) m.labels
  ]

  unfoldable pub first_histogram : List (GatheredMetric F H) → Assoc Text Text → Option H
  unfolding labels_match
  first_histogram [] labels = none
  first_histogram (m ∷ metrics) labels =
      let rest = first_histogram metrics labels in
      if labels_match m labels && has m.histogram then m.histogram else rest

  -- `Histogram`
  unfoldable pub histogram : List (Family F H) → Text → Assoc Text Text → Option H
  unfolding metric_family first_histogram
  histogram families name labels = elim (metric_family families name) [
    | none ↦ none
    | some family ↦ first_histogram family.metrics labels
  ]

module _ {F H : Type 0} ⦃e : Eq F⦄ where
  -- `AssertMetricValue`: whether the test goes on
  unfoldable pub assert_metric_value : List (Family F H) → Text → Assoc Text Text → F → Bool
  unfolding metric_value
  assert_metric_value families name labels want = is_value (metric_value families name labels) want

  -- the loop of `WaitForMetricValueWithin`, over what is gathered and the readings of the clock after
  -- each; `none` if it is still polling at their end
  unfoldable pub wait_loop :
      Text → Assoc Text Text → F → Time → List (List (Family F H) × Time) → Option Bool
  unfolding metric_value
  wait_loop name labels want deadline [] = none
  wait_loop name labels want deadline ((families, now) ∷ polls) =
      let rest = wait_loop name labels want deadline polls in
      if is_value (metric_value families name labels) want
      then some true
      else if before deadline now
      then some false
      else rest

  -- `WaitForMetricValueWithin`: whether the value was found in time
  unfoldable pub wait_for_metric_value :
      Duration
      → Text
      → Assoc Text Text
      → F
      → Duration
      → Time
      → List (List (Family F H) × Time)
      → Option Bool
  unfolding wait_loop
  wait_for_metric_value default_timeout name labels want timeout start polls =
      wait_loop name labels want
        (add start (if is_positive timeout then timeout else default_timeout)) polls
