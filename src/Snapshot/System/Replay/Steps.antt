-- ===== src/Snapshot/System/Replay/Steps.antt =====
-- Every step keeps the cache and the returned views faithful to the finished collections.
use prometheus_exporter_fram.Prelude.{
  ℕ, zero, suc, Bool, true, false, some, List, [], ◌∷◌, ◌++◌, ◌≡◌, inl, inr, Eq, get_elem?, set,
  arith, refl,
}
use prometheus_exporter_fram.Clock.{Time}
use prometheus_exporter_fram.Snapshot.Histogram.{FloatOps}
use prometheus_exporter_fram.Snapshot.Histogram.Counts.{observed}
use prometheus_exporter_fram.Snapshot.Collector.{
  Config, View, enter, begin_refresh, start, finish_scrape, new_state,
}
use prometheus_exporter_fram.Snapshot.System.{
  Thread, idle, scraping, waiting, collecting, done, looping, refreshing, loading, stopped,
  Collected, World, after_enter, after_begin, spawned, Step, call, look, wake, wait_again, store,
  launch, tick, begin, finish, cancel, Reach, here, next,
}
use prometheus_exporter_fram.Snapshot.System.Exclusion.{initial, AllIdle}
use prometheus_exporter_fram.Snapshot.System.Replay.{
  Holds, Exported, Exported-cons, Faithful, set-cases, enter-Holds, start-Holds, stop-Holds,
  begin-Holds, store-Holds, enter-Exported, store-Exported,
}

module _ {S F : Type 0} ⦃e : Eq F⦄ (ops : FloatOps F) (def_buckets : List F) (cfg : Config S) where
  -- One thread moves to a place that holds no view.
  quiet :
      (ts : List (Thread S F)) (i : ℕ) (t : Thread S F) (log : List (Collected S))
      → ((v : View S F) → t ≡ done v → Exported ops def_buckets cfg log v)
      → ((j : ℕ) (v : View S F)
          → get_elem? ts j ≡ some (done v)
          → Exported ops def_buckets cfg log v)
      → (j : ℕ) (v : View S F) → get_elem? (set ts i t) j ≡ some (done v)
      → Exported ops def_buckets cfg log v
  quiet ts i t log new old j v h = elim (set-cases ops def_buckets cfg ts i j t (done v) h) [
    | inl p ↦ new v p
    | inr q ↦ old j v q
  ]

  spawned-cases :
      (started cancelled : Bool) (now : Time) (ts : List (Thread S F)) (j : ℕ) (v : View S F)
      → get_elem? (spawned started cancelled now ++ ts) j ≡ some (done v)
      → (k : ℕ) × (get_elem? ts k ≡ some (done v))
  spawned-cases false cancelled now ts j v h = (j, h)
  spawned-cases true true now ts zero v h = cc
  spawned-cases true true now ts (suc j) v h = (j, h)
  spawned-cases true false now ts zero v h = cc
  spawned-cases true false now ts (suc j) v h = (j, h)

  module _ {w u : World S F} (f : Faithful ops def_buckets cfg w) where
    step-Faithful : Step ops def_buckets cfg w u → Faithful ops def_buckets cfg u
    unfolding finish_scrape
    step-Faithful (call i now at eq) = rw eq (record {
      holds = f.holds;
      views = quiet w.threads i (scraping now) w.log (λ v p. cc) f.views;
    })
    step-Faithful (look i now at eq) = rw eq (record {
      holds = enter-Holds ops def_buckets cfg w.state now w.log f.holds;
      views =
          quiet w.threads i (after_enter now (enter cfg w.state now).1) w.log
            (λ v. enter-Exported ops def_buckets cfg w.state now w.log v f.holds) f.views;
    })
    step-Faithful (wake i seen now at heard free eq) = rw eq (record {
      holds = f.holds;
      views = quiet w.threads i (scraping now) w.log (λ v p. cc) f.views;
    })
    step-Faithful (wait_again i seen at heard busy eq) = rw eq (record {
      holds = f.holds;
      views = quiet w.threads i (waiting w.state.cond) w.log (λ v p. cc) f.views;
    })
    step-Faithful (store i now c at time eq) =
        rw (eq, ← time)
          (record {
            holds = store-Holds ops def_buckets cfg w.state w.log c f.holds;
            views =
                quiet w.threads i
                  (done
                    (finish_scrape ops def_buckets cfg w.state c.snapshot c.duration
                      c.refresh_time).1)
                  (c ∷ w.log)
                  (λ v p. (
                    [],
                    c,
                    w.log,
                    refl,
                    ground (arith, store-Exported ops def_buckets cfg w.state w.log c f.holds),
                  ))
                  (λ j v h. Exported-cons ops def_buckets cfg c w.log v (f.views j v h));
          })
    step-Faithful (launch cancelled now eq) = rw eq (record {
      holds = start-Holds ops def_buckets cfg w.state w.log f.holds;
      views = λ j v h.
          let (k, q) = spawned-cases (start w.state).1 cancelled now w.threads j v h in
          f.views k v q;
    })
    step-Faithful (tick i now at eq) = rw eq (record {
      holds = f.holds;
      views = quiet w.threads i (refreshing now) w.log (λ v p. cc) f.views;
    })
    step-Faithful (begin i now at eq) = rw eq (record {
      holds = begin-Holds ops def_buckets cfg w.state w.log f.holds;
      views =
          quiet w.threads i (after_begin now (begin_refresh w.state).1) w.log (λ v p. ground arith)
            f.views;
    })
    step-Faithful (finish i now c at time eq) =
        rw (eq, ← time)
          (record {
            holds = store-Holds ops def_buckets cfg w.state w.log c f.holds;
            views =
                quiet w.threads i looping (c ∷ w.log) (λ v p. cc)
                  (λ j v h. Exported-cons ops def_buckets cfg c w.log v (f.views j v h));
          })
    step-Faithful (cancel i at eq) = rw eq (record {
      holds = stop-Holds ops def_buckets cfg w.state w.log f.holds;
      views = quiet w.threads i stopped w.log (λ v p. cc) f.views;
    })

  idle-views :
      (ts : List (Thread S F)) (j : ℕ) (v : View S F)
      → AllIdle ts
      → get_elem? ts j ≡ some (done v)
      → ⊥
  idle-views [] j v h p = cc
  idle-views (idle ∷ ts) zero v h p = cc
  idle-views (idle ∷ ts) (suc j) v h p = idle-views ts j v h p
  idle-views (scraping now ∷ ts) j v h p = h
  idle-views (waiting seen ∷ ts) j v h p = h
  idle-views (collecting now ∷ ts) j v h p = h
  idle-views (done x ∷ ts) j v h p = h
  idle-views (looping ∷ ts) j v h p = h
  idle-views (refreshing now ∷ ts) j v h p = h
  idle-views (loading now ∷ ts) j v h p = h
  idle-views (stopped ∷ ts) j v h p = h

  initial-Faithful :
      (z : S) (ts : List (Thread S F))
      → AllIdle ts
      → Faithful ops def_buckets cfg (initial ops def_buckets cfg z ts)
  unfolding initial new_state observed
  initial-Faithful z ts h = record {
    holds = (refl, refl, refl);
    views = λ j v p. absurd (idle-views ts j v h p);
  }

  Reach-Faithful :
      (z : S) (ts : List (Thread S F)) (w : World S F)
      → AllIdle ts
      → Reach ops def_buckets cfg (initial ops def_buckets cfg z ts) w
      → Faithful ops def_buckets cfg w
  Reach-Faithful z ts w h here = initial-Faithful z ts h
  Reach-Faithful z ts w h (next {t = t} r st) = step-Faithful (Reach-Faithful z ts t h r) st

  -- From idle threads and a new collector, whatever the interleaving of scrapes, the background
  -- loop and the cancellation: before the first collection has finished the guarded fields are those
  -- of an empty cache, and afterwards they are the snapshot and the status of the newest finished
  -- collection, with the attempt time of the newest successful one and the histogram of all
  -- collections.
  pub Reach-Holds :
      (z : S) (ts : List (Thread S F)) (w : World S F)
      → AllIdle ts
      → Reach ops def_buckets cfg (initial ops def_buckets cfg z ts) w
      → Holds ops def_buckets cfg w.state w.log
  Reach-Holds z ts w h r = (Reach-Faithful z ts w h r).holds

  -- From idle threads and a new collector, whatever the interleaving: what a scrape has returned is
  -- the snapshot and the status of one finished collection, with the newest success and the
  -- histogram of the collections up to that one. It never mixes two collections.
  pub Reach-Exported :
      (z : S) (ts : List (Thread S F)) (w : World S F) (j : ℕ) (v : View S F)
      → AllIdle ts
      → Reach ops def_buckets cfg (initial ops def_buckets cfg z ts) w
      → get_elem? w.threads j ≡ some (done v)
      → Exported ops def_buckets cfg w.log v
  Reach-Exported z ts w j v h r p = (Reach-Faithful z ts w h r).views j v p
