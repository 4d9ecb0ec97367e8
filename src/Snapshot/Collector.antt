-- ===== src/Snapshot/Collector.antt =====
-- `SnapshotCollector`: its fields, and one function for each critical section. `S` is the type of
-- the snapshots and `F` that of floats; the functions of the feature are fields of `Config`.
use prometheus_exporter_fram.Prelude.{
  ℕ, suc, or_else, Bool, true, false, ◌&&◌, ◌||◌, Option, List, Eq, pos, negsuc, if◌then◌else◌,
}
use prometheus_exporter_fram.Clock.{Time, Duration, is_zero, sub, shorter, is_positive}
use prometheus_exporter_fram.Text.{Text, codes, is_empty}
use prometheus_exporter_fram.Snapshot.Histogram.{FloatOps, Histogram, new_histogram, observe, clone}

pub record Status : Type 0 where
  pub attempt_time : Time
  pub success : Bool

-- The context that a snapshotter gets: that of the loop, or for a scrape one without a bound or
-- with a timeout.
pub data Context : Type 0 where
  background : Context
  with_timeout : Duration → Context
  lifecycle : Context

-- `SnapshotCollectorOptions`; `none` is `nil`. The hooks that write to channels are left out.
pub record Options (S : Type 0) : Type 0 where
  pub namespace : Text
  pub snapshotter : Option (Context → Time → S)
  pub refresh_interval : Duration
  pub sync_refresh_timeout : Duration
  pub status_func : Option (S → Status)

-- the fields of the collector that never change
pub record Config (S : Type 0) : Type 0 where
  pub namespace : Text
  pub snapshotter : Context → Time → S
  pub refresh_interval : Duration
  pub sync_refresh_timeout : Duration
  pub status_func : S → Status

-- The fields that the mutex guards. `cond` counts the broadcasts of `c.cond` so far.
pub record State (S F : Type 0) : Type 0 where
  pub initialized : Bool
  pub background_started : Bool
  pub refreshing : Bool
  pub cond : ℕ
  pub snapshot : S
  pub status : Status
  pub last_successful : Time
  pub durations : Histogram F

-- `snapshotState`
pub record View (S F : Type 0) : Type 0 where
  pub snapshot : S
  pub status : Status
  pub last_successful : Time
  pub durations : Histogram F

-- `DefaultSnapshotRefreshInterval`, 5 minutes
abbrev pub default_refresh_interval : Duration
default_refresh_interval = pos 300_000_000_000

abbrev pub default_string : Text → Text → Text
default_string value fallback = if is_empty value then fallback else value

-- What `currentSnapshot` does under its first lock.
pub data Outcome (S F : Type 0) : Type 0 where
  cached : View S F → Outcome S F
  -- from after so many broadcasts on
  wait : ℕ → Outcome S F
  collect : Outcome S F

-- a status without a time gets that of the refresh
abbrev pub timed : Status → Time → Status
timed status refresh_time =
    if is_zero status.attempt_time then record status { attempt_time = refresh_time } else status

-- `collectSnapshot`: the duration between two readings of the clock, at least 0
unfoldable pub elapsed : Time → Time → Duration
elapsed start finish = elim (sub finish start) [ pos n ↦ pos n | negsuc n ↦ pos 0 ]

module _ {S : Type 0} where
  -- `NewSnapshotCollector`, the part that fills in the defaults
  unfoldable pub new_config : S → Options S → Config S
  new_config zero_snapshot options = record {
    namespace = default_string options.namespace (codes "exporter");
    snapshotter = or_else options.snapshotter (λ ctx now. zero_snapshot);
    refresh_interval =
        if is_positive options.refresh_interval
        then options.refresh_interval
        else default_refresh_interval;
    sync_refresh_timeout = options.sync_refresh_timeout;
    status_func = or_else options.status_func (λ s. record { attempt_time = 0; success = false });
  }

  unfoldable pub collect_snapshot : Config S → Context → Time → Time → Time → S × Duration
  unfolding elapsed
  collect_snapshot cfg ctx now start finish = (cfg.snapshotter ctx now, elapsed start finish)

  -- the context of a synchronous refresh
  unfoldable pub sync_context : Config S → Context
  sync_context cfg =
      if is_positive cfg.sync_refresh_timeout
      then with_timeout cfg.sync_refresh_timeout
      else background

module _ {S F : Type 0} where
  -- `beginRefresh`
  unfoldable pub begin_refresh : State S F → State S F × Bool
  begin_refresh s = if s.refreshing then (s, false) else (record s { refreshing = true }, true)

  -- the locked part of `Start`, and whether the loop is started
  unfoldable pub start : State S F → State S F × Bool
  start s =
      if s.background_started then (s, false) else (record s { background_started = true }, true)

  -- the end of `refreshLoop`
  unfoldable pub stop : State S F → State S F
  stop s = record s { background_started = false }

module _ {S F : Type 0} ⦃e : Eq F⦄ where
  -- `snapshotStateLocked`
  unfoldable pub state_view : State S F → View S F
  state_view s = record {
    snapshot = s.snapshot;
    status = s.status;
    last_successful = s.last_successful;
    durations = clone s.durations;
  }

  unfoldable pub is_fresh : Config S → State S F → Time → Bool
  is_fresh cfg s now =
      s.initialized
      && (s.background_started || shorter (sub now s.status.attempt_time) cfg.refresh_interval)

  -- the first critical section of `currentSnapshot`
  unfoldable pub enter : Config S → State S F → Time → State S F × Outcome S F
  unfolding state_view is_fresh
  enter cfg s now =
      if is_fresh cfg s now
      then (s, cached (state_view s))
      else if s.refreshing
      then (s, wait s.cond)
      else (record s { refreshing = true }, collect)

module _ {S F : Type 0} ⦃e : Eq F⦄ (ops : FloatOps F) (def_buckets : List F) where
  -- the collector before any call
  unfoldable pub new_state : S → State S F
  unfolding new_histogram
  new_state zero_snapshot = record {
    initialized = false;
    background_started = false;
    refreshing = false;
    cond = 0;
    snapshot = zero_snapshot;
    status = record { attempt_time = 0; success = false };
    last_successful = 0;
    durations = new_histogram ops def_buckets;
  }

  -- `storeSnapshotLocked`
  unfoldable pub store_snapshot : Config S → State S F → S → Duration → Time → State S F
  store_snapshot cfg s snapshot duration refresh_time =
      let status = timed (cfg.status_func snapshot) refresh_time in
      record s {
        last_successful = if status.success then status.attempt_time else s.last_successful;
        snapshot = snapshot;
        status = status;
        durations = observe ops def_buckets s.durations duration;
        initialized = true;
      }

  -- `c.cond.Broadcast()`
  unfoldable pub broadcast : State S F → State S F
  broadcast s = record s { cond = suc s.cond }

  -- `finishRefresh`
  unfoldable pub finish_refresh : Config S → State S F → S → Duration → Time → State S F
  unfolding store_snapshot broadcast
  finish_refresh cfg s snapshot duration refresh_time =
      broadcast
        (record (store_snapshot cfg s snapshot duration refresh_time) { refreshing = false })

  -- the last critical section of `currentSnapshot`
  unfoldable pub finish_scrape : Config S → State S F → S → Duration → Time → State S F × View S F
  unfolding finish_refresh state_view
  finish_scrape cfg s snapshot duration refresh_time =
      let s' = finish_refresh cfg s snapshot duration refresh_time in (s', state_view s')
