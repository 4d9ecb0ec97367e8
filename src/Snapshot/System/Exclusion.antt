-- ===== src/Snapshot/System/Exclusion.antt =====
-- At most one thread refreshes, at most one background loop runs, and no scrape waits for nothing.
use prometheus_exporter_fram.Prelude.{
  ℕ, zero, suc, ◌+◌, ◌≤◌, Bool, true, false, some, List, [], ◌∷◌, ◌≡◌, inl, inr, Bool-cases, Eq,
  get_elem?, set, arith, refl,
}
use prometheus_exporter_fram.Snapshot.Histogram.{FloatOps}
use prometheus_exporter_fram.Snapshot.Collector.{
  Config, View, enter, begin_refresh, start, stop, store_snapshot, finish_refresh, finish_scrape,
  new_state,
}
use prometheus_exporter_fram.Snapshot.System.{
  Thread, idle, scraping, waiting, collecting, done, looping, refreshing, loading, stopped, World,
  after_enter, after_begin, Step, call, look, wake, wait_again, store, launch, tick, begin, finish,
  cancel, Reach, here, next,
}

abbrev bit : Bool → ℕ
bit true = 1
bit false = 0

module _ {S F : Type 0} where
  -- the thread has set `refreshing` and will clear it
  abbrev pub owns : Thread S F → Bool
  owns (collecting now) = true
  owns (loading now) = true
  owns _ = false

  -- the thread is the background loop
  abbrev pub loops : Thread S F → Bool
  loops looping = true
  loops (refreshing now) = true
  loops (loading now) = true
  loops _ = false

  pub count : (Thread S F → Bool) → List (Thread S F) → ℕ
  count p [] = 0
  count p (t ∷ ts) = bit (p t) + count p ts

  count-set :
      (p : Thread S F → Bool) (ts : List (Thread S F)) (i : ℕ) (t u : Thread S F)
      → get_elem? ts i ≡ some t
      → count p (set ts i u) + bit (p t) ≡ count p ts + bit (p u)
  unfolding count
  count-set p [] i t u h = cc
  count-set p (x ∷ ts) zero t u h = ground arith
  count-set p (x ∷ ts) (suc i) t u h = omega (arith, count-set p ts i t u h)

  counts-set :
      (ts : List (Thread S F)) (i : ℕ) (t u : Thread S F)
      → get_elem? ts i ≡ some t
      → (count owns (set ts i u) + bit (owns t) ≡ count owns ts + bit (owns u))
        × (count loops (set ts i u) + bit (loops t) ≡ count loops ts + bit (loops u))
  counts-set ts i t u h = (count-set owns ts i t u h, count-set loops ts i t u h)

  -- a positive count is that of some thread
  pub find_owner :
      (ts : List (Thread S F))
      → 1 ≤ count owns ts
      → (i : ℕ) × (t : Thread S F) × (get_elem? ts i ≡ some t) × (owns t ≡ true)
  unfolding count
  find_owner [] h = absurd (omega arith)
  find_owner (t ∷ ts) h = elim (Bool-cases (owns t)) [
    | inl p ↦ (0, t, refl, p)
    | inr p ↦ let (i, u, at, o) = find_owner ts (ground arith) in (suc i, u, at, o)
  ]

  abbrev pub AllIdle : List (Thread S F) → Type 0
  AllIdle [] = Unit
  AllIdle (idle ∷ ts) = AllIdle ts
  AllIdle (_ ∷ ts) = ⊥

  -- The flags tell the number of refreshing threads and of background loops.
  pub record Exclusive (w : World S F) : Type 0 where
    pub owners : count owns w.threads ≡ bit w.state.refreshing
    pub loops : count loops w.threads ≡ bit w.state.background_started

module _ {S F : Type 0} ⦃e : Eq F⦄ (ops : FloatOps F) (def_buckets : List F) (cfg : Config S) where
  module _ {w u : World S F} (v : Exclusive w) where
    pub step-Exclusive : Step ops def_buckets cfg w u → Exclusive u
    unfolding enter begin_refresh start stop finish_refresh store_snapshot finish_scrape count
    step-Exclusive (call i now at eq) = rw eq (
        ground (
          arith,
          count-set owns w.threads i idle (scraping now) at,
          count-set loops w.threads i idle (scraping now) at,
        ))
    step-Exclusive (look i now at eq) = rw eq (
        ground (
          arith,
          count-set owns w.threads i (scraping now) (after_enter now (enter cfg w.state now).1) at,
          count-set loops w.threads i (scraping now) (after_enter now (enter cfg w.state now).1) at,
        ))
    step-Exclusive (wake i seen now at heard free eq) = rw eq (
        ground (
          arith,
          count-set owns w.threads i (waiting seen) (scraping now) at,
          count-set loops w.threads i (waiting seen) (scraping now) at,
        ))
    step-Exclusive (wait_again i seen at heard busy eq) =
        rw eq (ground (arith, counts-set w.threads i (waiting seen) (waiting w.state.cond) at))
    step-Exclusive (store i now c at time eq) =
        let v' : View S F =
          (finish_scrape ops def_buckets cfg w.state c.snapshot c.duration now).1 in
        rw eq (ground (arith, counts-set w.threads i (collecting now) (done v') at))
    step-Exclusive (launch cancelled now eq) = rw eq (ground arith)
    step-Exclusive (tick i now at eq) = rw eq (
        ground (
          arith,
          count-set owns w.threads i looping (refreshing now) at,
          count-set loops w.threads i looping (refreshing now) at,
        ))
    step-Exclusive (begin i now at eq) = rw eq (
        ground (
          arith,
          count-set owns w.threads i (refreshing now) (after_begin now (begin_refresh w.state).1)
              at,
          count-set loops w.threads i (refreshing now) (after_begin now (begin_refresh w.state).1)
              at,
        ))
    step-Exclusive (finish i now c at time eq) = rw eq (
        ground (
          arith,
          count-set owns w.threads i (loading now) looping at,
          count-set loops w.threads i (loading now) looping at,
        ))
    step-Exclusive (cancel i at eq) = rw eq (
        ground (
          arith,
          count-set owns w.threads i looping stopped at,
          count-set loops w.threads i looping stopped at,
        ))

  -- No thread, and nothing collected.
  unfoldable pub initial : S → List (Thread S F) → World S F
  initial zero_snapshot threads = record {
    state = new_state ops def_buckets zero_snapshot;
    threads = threads;
    log = [];
  }

  idle-counts : (ts : List (Thread S F)) → AllIdle ts → (count owns ts ≡ 0) × (count loops ts ≡ 0)
  unfolding count
  idle-counts [] h = (refl, refl)
  idle-counts (idle ∷ ts) h = omega (arith, idle-counts ts h)
  idle-counts (scraping now ∷ ts) h = absurd h
  idle-counts (waiting seen ∷ ts) h = absurd h
  idle-counts (collecting now ∷ ts) h = absurd h
  idle-counts (done v ∷ ts) h = absurd h
  idle-counts (looping ∷ ts) h = absurd h
  idle-counts (refreshing now ∷ ts) h = absurd h
  idle-counts (loading now ∷ ts) h = absurd h
  idle-counts (stopped ∷ ts) h = absurd h

  initial-Exclusive : (z : S) (ts : List (Thread S F)) → AllIdle ts → Exclusive (initial z ts)
  unfolding initial new_state
  initial-Exclusive z ts h = omega (arith, idle-counts ts h)

  -- From idle threads and a new collector, whatever the interleaving: as many threads refresh as
  -- the flag `refreshing` says, one or none, and as many background loops run as the flag
  -- `backgroundStarted` says, one or none.
  pub Reach-Exclusive :
      (z : S) (ts : List (Thread S F)) (w : World S F)
      → AllIdle ts
      → Reach ops def_buckets cfg (initial z ts) w
      → Exclusive w
  Reach-Exclusive z ts w h here = initial-Exclusive z ts h
  Reach-Exclusive z ts w h (next {t = t} r st) = step-Exclusive (Reach-Exclusive z ts t h r) st
