-- ===== src/Snapshot/System.antt =====
-- The goroutines that share a collector: scrapes, callers of `Start` and the background loop, as a
-- step relation. A step is one critical section, or the choice that leads to one; what the domain
-- snapshotter and the clock answer is chosen by the environment. `waiting` is `cond.Wait`, which a
-- thread leaves only after a broadcast, and the loop around it only when `refreshing` is false.
pub mod Exclusion
pub mod Progress
pub mod Replay
pub mod Wakeups
use prometheus_exporter_fram.Prelude.{
  ℕ, Bool, true, false, some, List, [], ◌∷◌, ◌++◌, ◌<◌, ◌≡◌, Eq, get_elem?, set,
}
use prometheus_exporter_fram.Clock.{Time, Duration}
use prometheus_exporter_fram.Snapshot.Histogram.{FloatOps}
use prometheus_exporter_fram.Snapshot.Collector.{
  Config, State, View, Outcome, cached, wait, collect, enter, begin_refresh, start, stop,
  finish_refresh, finish_scrape,
}

pub data Thread (S F : Type 0) : Type 0 where
  idle : Thread S F
  -- `currentSnapshot(now)`, before its first lock
  scraping : Time → Thread S F
  -- at `cond.Wait`, since so many broadcasts
  waiting : ℕ → Thread S F
  -- a scrape that refreshes, outside the lock
  collecting : Time → Thread S F
  -- `Collect` has its state
  done : View S F → Thread S F
  -- `refreshLoop`, at its `select`
  looping : Thread S F
  -- the loop, before `beginRefresh`
  refreshing : Time → Thread S F
  -- the loop's refresh, outside the lock
  loading : Time → Thread S F
  stopped : Thread S F

-- A finished collection: the snapshot, its duration and the time of the refresh.
pub record Collected (S : Type 0) : Type 0 where
  pub snapshot : S
  pub duration : Duration
  pub refresh_time : Time

pub record World (S F : Type 0) : Type 0 where
  pub state : State S F
  pub threads : List (Thread S F)
  -- all finished collections, the newest first
  pub log : List (Collected S)

module _ {S F : Type 0} where
  -- where a scrape goes on after its first critical section
  abbrev pub after_enter : Time → Outcome S F → Thread S F
  after_enter now (cached v) = done v
  after_enter now (wait seen) = waiting seen
  after_enter now collect = collecting now

  -- where the loop goes on after `beginRefresh`
  abbrev pub after_begin : Time → Bool → Thread S F
  after_begin now true = loading now
  after_begin now false = looping

  -- `go c.refreshLoop(ctx)`; a context that is done already skips the first refresh
  abbrev pub spawned : Bool → Bool → Time → List (Thread S F)
  spawned false cancelled now = []
  spawned true true now = looping ∷ []
  spawned true false now = refreshing now ∷ []

module _ {S F : Type 0} ⦃e : Eq F⦄ (ops : FloatOps F) (def_buckets : List F) (cfg : Config S) where
  pub data Step (w u : World S F) : Type 0 where
    call :
        (i : ℕ) (now : Time)
        → get_elem? w.threads i ≡ some idle
        → u ≡ record w { threads = set w.threads i (scraping now) }
        → Step w u
    look :
        (i : ℕ) (now : Time)
        → get_elem? w.threads i ≡ some (scraping now)
        → u ≡ record w {
          state = (enter cfg w.state now).0;
          threads = set w.threads i (after_enter now (enter cfg w.state now).1);
        }
        → Step w u
    wake :
        (i seen : ℕ) (now : Time)
        → get_elem? w.threads i ≡ some (waiting seen)
        → seen < w.state.cond
        → w.state.refreshing ≡ false
        → u ≡ record w { threads = set w.threads i (scraping now) }
        → Step w u
    -- a broadcast, but again a refresh is under way
    wait_again :
        (i seen : ℕ)
        → get_elem? w.threads i ≡ some (waiting seen)
        → seen < w.state.cond
        → w.state.refreshing ≡ true
        → u ≡ record w { threads = set w.threads i (waiting w.state.cond) }
        → Step w u
    store :
        (i : ℕ) (now : Time) (c : Collected S)
        → get_elem? w.threads i ≡ some (collecting now)
        → c.refresh_time ≡ now
        → u ≡ record w {
          state = (finish_scrape ops def_buckets cfg w.state c.snapshot c.duration now).0;
          threads =
              set w.threads i
                (done (finish_scrape ops def_buckets cfg w.state c.snapshot c.duration now).1);
          log = c ∷ w.log;
        }
        → Step w u
    launch :
        (cancelled : Bool) (now : Time)
        → u ≡ record w {
          state = (start w.state).0;
          threads = spawned (start w.state).1 cancelled now ++ w.threads;
        }
        → Step w u
    tick :
        (i : ℕ) (now : Time)
        → get_elem? w.threads i ≡ some looping
        → u ≡ record w { threads = set w.threads i (refreshing now) }
        → Step w u
    begin :
        (i : ℕ) (now : Time)
        → get_elem? w.threads i ≡ some (refreshing now)
        → u ≡ record w {
          state = (begin_refresh w.state).0;
          threads = set w.threads i (after_begin now (begin_refresh w.state).1);
        }
        → Step w u
    finish :
        (i : ℕ) (now : Time) (c : Collected S)
        → get_elem? w.threads i ≡ some (loading now)
        → c.refresh_time ≡ now
        → u ≡ record w {
          state = finish_refresh ops def_buckets cfg w.state c.snapshot c.duration now;
          threads = set w.threads i looping;
          log = c ∷ w.log;
        }
        → Step w u
    cancel :
        (i : ℕ)
        → get_elem? w.threads i ≡ some looping
        → u ≡ record w { state = stop w.state; threads = set w.threads i stopped }
        → Step w u

  pub data Reach (w : World S F) : World S F → Type 0 where
    here : Reach w w
    next : {t u : World S F} → Reach w t → Step t u → Reach w u
