-- ===== src/Snapshot/System/Replay.antt =====
-- What the cache holds, and what scrapes return, as functions of the finished collections.
pub mod Steps
use prometheus_exporter_fram.Prelude.{
  ℕ, zero, suc, ◌+◌, ◌≤◌, Bool, true, false, ◌&&◌, Option, none, some, List, [], ◌∷◌, ◌++◌, ◌≡◌,
  ◌⊎◌, inl, inr, Bool-cases, ap, Eq, get_elem?, set, arith, if◌then◌else◌, refl, map, ◌∙◌, sym,
}
use prometheus_exporter_fram.Clock.{Time, Duration}
use prometheus_exporter_fram.Snapshot.Histogram.{FloatOps, Histogram, clone}
use prometheus_exporter_fram.Snapshot.Histogram.Counts.{observed}
use prometheus_exporter_fram.Snapshot.Collector.{
  Config, State, Status, View, Outcome, cached, wait, collect, timed, enter, is_fresh, state_view,
  begin_refresh, start, stop, store_snapshot, finish_refresh, finish_scrape, new_state,
}
use prometheus_exporter_fram.Snapshot.System.{
  Thread, idle, scraping, waiting, collecting, done, looping, refreshing, loading, stopped,
  Collected, World, after_enter, after_begin, spawned, Step, call, look, wake, store, launch, tick,
  begin, finish, cancel, Reach, here, next,
}
use prometheus_exporter_fram.Snapshot.System.Exclusion.{initial, AllIdle}

module _ {S : Type 0} (cfg : Config S) where
  -- the status of a collection, with the time of its refresh if it gives none
  pub status_of : Collected S → Status
  status_of c = timed (cfg.status_func c.snapshot) c.refresh_time

  -- the attempt time of the newest successful collection, or the zero time
  pub newest_success : List (Collected S) → Time
  newest_success [] = 0
  newest_success (c ∷ log) =
      if (status_of c).success then (status_of c).attempt_time else newest_success log

pub durations_of : {S : Type 0} → List (Collected S) → List Duration
durations_of [] = []
durations_of (c ∷ log) = c.duration ∷ durations_of log

module _ {S F : Type 0} ⦃e : Eq F⦄ (ops : FloatOps F) (def_buckets : List F) (cfg : Config S) where
  -- What a scrape should return when `c` is the newest finished collection.
  pub exported : Collected S → List (Collected S) → View S F
  exported c log = record {
    snapshot = c.snapshot;
    status = status_of cfg c;
    last_successful = newest_success cfg (c ∷ log);
    durations = clone (observed ops def_buckets (durations_of (c ∷ log)));
  }

  -- The guarded fields against the log.
  abbrev pub Holds : State S F → List (Collected S) → Type 0
  Holds s [] =
      (s.initialized ≡ false)
      × (s.last_successful ≡ 0)
      × (s.durations ≡ observed ops def_buckets [])
  Holds s (c ∷ log) =
      (s.initialized ≡ true)
      × (s.snapshot ≡ c.snapshot)
      × (s.status ≡ status_of cfg c)
      × (s.last_successful ≡ newest_success cfg (c ∷ log))
      × (s.durations ≡ observed ops def_buckets (durations_of (c ∷ log)))

  pub store-Holds :
      (s : State S F) (log : List (Collected S)) (c : Collected S)
      → Holds s log
      → Holds (finish_refresh ops def_buckets cfg s c.snapshot c.duration c.refresh_time) (c ∷ log)
  unfolding finish_refresh newest_success status_of durations_of observed
  store-Holds s [] c h = (refl, refl, refl, ground arith, ground arith)
  store-Holds s (x ∷ log) c h = (refl, refl, refl, ground arith, ground arith)

  view-Holds :
      (s : State S F) (c : Collected S) (log : List (Collected S))
      → Holds s (c ∷ log)
      → state_view s ≡ exported c log
  unfolding state_view exported
  view-Holds s c log h = ground arith

  -- The view of a scrape that has returned is what it should be for some collection of the log.
  abbrev pub Exported : List (Collected S) → View S F → Type 0
  Exported log v =
      (newer : List (Collected S)) × (c : Collected S) × (older : List (Collected S)) × (log
        ≡ newer ++ c ∷ older)
      × (v ≡ exported c older)

  pub Exported-cons :
      (c : Collected S) (log : List (Collected S)) (v : View S F)
      → Exported log v
      → Exported (c ∷ log) v
  Exported-cons c log v (newer, x, older, eq, same) = (c ∷ newer, x, older, ap (◌∷◌ c) eq, same)

  pub record Faithful (w : World S F) : Type 0 where
    pub holds : Holds w.state w.log
    pub views : (j : ℕ) (v : View S F) → get_elem? w.threads j ≡ some (done v) → Exported w.log v

  pub set-cases :
      (ts : List (Thread S F)) (i j : ℕ) (u x : Thread S F)
      → get_elem? (set ts i u) j ≡ some x
      → (u ≡ x) ⊎ (get_elem? ts j ≡ some x)
  set-cases [] i j u x h = cc
  set-cases (t ∷ ts) zero zero u x h = inl (ground arith)
  set-cases (t ∷ ts) zero (suc j) u x h = inr h
  set-cases (t ∷ ts) (suc i) zero u x h = inr h
  set-cases (t ∷ ts) (suc i) (suc j) u x h = set-cases ts i j u x h

  -- The guarded fields that `Holds` reads are left alone.
  pub enter-Holds :
      (s : State S F) (now : Time) (log : List (Collected S))
      → Holds s log
      → Holds (enter cfg s now).0 log
  unfolding enter
  enter-Holds s now [] h = ground arith
  enter-Holds s now (c ∷ log) h = ground arith

  pub start-Holds : (s : State S F) (log : List (Collected S)) → Holds s log → Holds (start s).0 log
  unfolding start
  start-Holds s [] h = ground arith
  start-Holds s (c ∷ log) h = ground arith

  pub stop-Holds : (s : State S F) (log : List (Collected S)) → Holds s log → Holds (stop s) log
  unfolding stop
  stop-Holds s [] h = h
  stop-Holds s (c ∷ log) h = h

  pub begin-Holds :
      (s : State S F) (log : List (Collected S)) → Holds s log → Holds (begin_refresh s).0 log
  unfolding begin_refresh
  begin-Holds s [] h = ground arith
  begin-Holds s (c ∷ log) h = ground arith

  -- A scrape that returns from the cache returns the newest collection.
  pub enter-Exported :
      (s : State S F) (now : Time) (log : List (Collected S)) (v : View S F)
      → Holds s log
      → after_enter now (enter cfg s now).1 ≡ done v
      → Exported log v
  unfolding enter
  enter-Exported s now [] v h p = absurd (ground arith)
  enter-Exported s now (c ∷ log) v h p = ([], c, log, refl, ground (arith, view-Holds s c log h))

  pub store-Exported :
      (s : State S F) (log : List (Collected S)) (c : Collected S)
      → Holds s log
      → (finish_scrape ops def_buckets cfg s c.snapshot c.duration c.refresh_time).1
        ≡ exported c log
  unfolding finish_scrape
  store-Exported s log c h =
      view-Holds (finish_refresh ops def_buckets cfg s c.snapshot c.duration c.refresh_time) c log
        (store-Holds s log c h)
