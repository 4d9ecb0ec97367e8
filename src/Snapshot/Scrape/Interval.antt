-- ===== src/Snapshot/Scrape/Interval.antt =====
-- When a scrape refreshes, and what it then leaves.
use prometheus_exporter_fram.Prelude.{
  ℕ, suc, ◌+◌, ◌-◌, ◌%◌, ◌^◌, ◌≤◌, min, Bool, true, false, ◌&&◌, ◌||◌, some, pos, negsuc, ltb, leb,
  ◌≡◌, ◌∙◌, ◌⊎◌, inl, inr, refl, Eq, Bool-cases, arith, if◌then◌else◌, List,
}
use prometheus_exporter_fram.Clock.{Time, shorter, max_duration}
use prometheus_exporter_fram.Snapshot.Histogram.{FloatOps, observe}
use prometheus_exporter_fram.Snapshot.Collector.{
  Config, State, View, is_fresh, state_view, store_snapshot, broadcast, finish_refresh,
  collect_snapshot, sync_context,
}
use prometheus_exporter_fram.Snapshot.Scrape.{current_snapshot, refreshed, current_snapshot_cases}

young :
    (now attempt n most : ℕ)
    → 1 ≤ n
    → n ≤ most
    → shorter
        (if leb attempt now
          then pos (min (now - attempt) most)
          else negsuc (min (attempt - now - 1) most))
        (pos n)
      ≡ ltb now (attempt + n)
young now attempt n most p q = elim (Bool-cases (leb attempt now)) [
  | inl h ↦ rw h (ground arith)
  | inr h ↦ rw h (ground arith)
]

module _ {S F : Type 0} ⦃e : Eq F⦄ (ops : FloatOps F) (def_buckets : List F) (cfg : Config S) where
  -- the cache answers: it holds something, and the loop runs or the interval since the attempt has not
  -- yet passed
  pub answers : State S F → ℕ → Time → Bool
  answers s n now = s.initialized && (s.background_started || ltb now (s.status.attempt_time + n))

  is_fresh-answers :
      (s : State S F) (n : ℕ) (now : Time)
      → cfg.refresh_interval ≡ pos n
      → 1 ≤ n
      → n ≤ max_duration
      → is_fresh cfg s now ≡ answers s n now
  unfolding is_fresh answers
  is_fresh-answers s n now i p q = rw (i, young now s.status.attempt_time n max_duration p q) refl

  -- What a synchronous refresh at `now` leaves: the snapshot that the snapshotter took then, one
  -- collection more, one broadcast more, and no refresh under way.
  pub record Refreshed (s s' : State S F) (now : Time) : Type 0 where
    pub initialized : s'.initialized ≡ true
    pub snapshot : s'.snapshot ≡ cfg.snapshotter (sync_context cfg) now
    pub count : s'.durations.count ≡ (s.durations.count + 1) % 2 ^ 64
    pub cond : s'.cond ≡ suc s.cond
    pub refreshing : s'.refreshing ≡ false
    pub background_started : s'.background_started ≡ s.background_started

  -- With no refresh under way and a positive interval, a scrape does not wait, and returns what the
  -- collector then holds. If it has a snapshot, and the background loop runs or the instant is before
  -- the attempt time plus the interval, the collector is left as it was; and only otherwise it
  -- refreshes, once.
  pub current_snapshot-answers :
      (s : State S F) (n : ℕ) (now began ended : Time)
      → s.refreshing ≡ false
      → cfg.refresh_interval ≡ pos n
      → 1 ≤ n
      → n ≤ max_duration
      → (s' : State S F) × (v : View S F) × (current_snapshot ops def_buckets cfg s now began ended
          ≡ some (s', v))
        × (v ≡ state_view s')
        × (((answers s n now ≡ true) × (s' ≡ s)) ⊎ ((answers s n now ≡ false) × Refreshed s s' now))
  unfolding refreshed collect_snapshot finish_refresh store_snapshot broadcast observe
  current_snapshot-answers s n now began ended h i p q =
      let cases = current_snapshot_cases ops def_buckets cfg s now began ended h in
      let same = is_fresh-answers s n now i p q in
      let after = refreshed ops def_buckets cfg s now began ended in
      elim (Bool-cases (answers s n now)) [
        | inl k ↦ (s, state_view s, cases ∙ rw (same, k) refl, refl, inl (k, refl))
        | inr k ↦ (
          after,
          state_view after,
          cases ∙ rw (same, k) refl,
          refl,
          inr (
            k,
            record {
              initialized = refl;
              snapshot = refl;
              count = ground arith;
              cond = refl;
              refreshing = refl;
              background_started = refl;
            },
          ),
        )
      ]
