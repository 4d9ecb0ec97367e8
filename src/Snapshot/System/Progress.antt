-- ===== src/Snapshot/System/Progress.antt =====
-- A scrape that waits can always be released.
use prometheus_exporter_fram.Prelude.{
  ℕ, ◌≤◌, true, some, List, ◌∷◌, ◌≡◌, ◌⊎◌, inl, inr, Bool-cases, Eq, get_elem?, set, arith, refl,
  pos,
}
use prometheus_exporter_fram.Clock.{Time}
use prometheus_exporter_fram.Snapshot.Histogram.{FloatOps}
use prometheus_exporter_fram.Snapshot.Collector.{
  Config, store_snapshot, broadcast, finish_refresh, finish_scrape,
}
use prometheus_exporter_fram.Snapshot.System.{
  Thread, idle, scraping, waiting, collecting, done, looping, refreshing, loading, stopped,
  Collected, World, Step, wake, store, finish, Reach,
}
use prometheus_exporter_fram.Snapshot.System.Exclusion.{
  owns, find_owner, initial, AllIdle, Reach-Exclusive,
}
use prometheus_exporter_fram.Snapshot.System.Wakeups.{get-set_other, Reach-AllHeard}

module _ {S F : Type 0} ⦃e : Eq F⦄ (ops : FloatOps F) (def_buckets : List F) (cfg : Config S) where
  -- a step after which a thread that waits can go on
  abbrev pub Released : World S F → ℕ → Time → Type 0
  Released w i now =
      (u : World S F) × Step ops def_buckets cfg w u
      × Step ops def_buckets cfg u (record u { threads = set u.threads i (scraping now) })

  owner_step :
      (w : World S F) (j : ℕ) (t : Thread S F) (i seen : ℕ) (now : Time)
      → get_elem? w.threads j ≡ some t
      → owns t ≡ true
      → get_elem? w.threads i ≡ some (waiting seen)
      → seen ≤ w.state.cond
      → Released w i now
  unfolding finish_refresh finish_scrape store_snapshot broadcast
  owner_step w j (collecting at_) i seen now at o at' known =
      let c : Collected S = record {
        snapshot = w.state.snapshot;
        duration = pos 0;
        refresh_time = at_;
      } in
      let (state', view) = finish_scrape ops def_buckets cfg w.state c.snapshot c.duration at_ in
      (
        record w { state = state'; threads = set w.threads j (done view); log = c ∷ w.log },
        store j at_ c at refl refl,
        wake i seen now
            (get-set_other w.threads j i (collecting at_) (waiting seen) (done view) at at' refl
              refl)
            (omega (arith, known)) refl refl,
      )
  owner_step w j (loading at_) i seen now at o at' known =
      let c : Collected S = record {
        snapshot = w.state.snapshot;
        duration = pos 0;
        refresh_time = at_;
      } in
      (
        record w {
          state = finish_refresh ops def_buckets cfg w.state c.snapshot c.duration at_;
          threads = set w.threads j looping;
          log = c ∷ w.log;
        },
        finish j at_ c at refl refl,
        wake i seen now
            (get-set_other w.threads j i (loading at_) (waiting seen) looping at at' refl refl)
            (omega (arith, known)) refl refl,
      )
  owner_step w j idle i seen now at o at' known = cc
  owner_step w j (scraping at_) i seen now at o at' known = cc
  owner_step w j (waiting n) i seen now at o at' known = cc
  owner_step w j (done v) i seen now at o at' known = cc
  owner_step w j looping i seen now at o at' known = cc
  owner_step w j (refreshing at_) i seen now at o at' known = cc
  owner_step w j stopped i seen now at o at' known = cc

  -- In every state that is reached from idle threads and a new collector, a waiting scrape is not
  -- stranded, although it goes on only after a broadcast that comes after it has begun to wait: it can
  -- go on at once, or another thread can take a step after which it can.
  pub waiting_progress :
      (z : S) (ts : List (Thread S F)) (w : World S F) (i seen : ℕ) (now : Time)
      → AllIdle ts
      → Reach ops def_buckets cfg (initial ops def_buckets cfg z ts) w
      → get_elem? w.threads i ≡ some (waiting seen)
      → Step ops def_buckets cfg w (record w { threads = set w.threads i (scraping now) })
        ⊎ Released w i now
  waiting_progress z ts w i seen now h r at =
      let heard = Reach-AllHeard ops def_buckets cfg z ts w h r i seen at in
      elim (Bool-cases w.state.refreshing) [
        | inl busy ↦
            let v = Reach-Exclusive ops def_buckets cfg z ts w h r in
            let (j, t, owned, owner) = find_owner w.threads (ground (arith, v.owners)) in
            inr (owner_step w j t i seen now owned owner at (ground arith))
        | inr free ↦ inl (wake i seen now at (ground arith) free refl)
      ]
