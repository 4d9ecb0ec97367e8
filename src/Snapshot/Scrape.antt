-- ===== src/Snapshot/Scrape.antt =====
-- `Collect` with no other goroutine at work: a whole call of `currentSnapshot`, and two in a row.
pub mod Interval
use prometheus_exporter_fram.Prelude.{
  false, ◌||◌, Option, none, some, List, ◌≡◌, refl, Eq, arith, if◌then◌else◌,
}
use prometheus_exporter_fram.Clock.{Time, shorter, sub}
use prometheus_exporter_fram.Snapshot.Histogram.{FloatOps}
use prometheus_exporter_fram.Snapshot.Collector.{
  Config, State, View, Outcome, cached, wait, collect, timed, enter, is_fresh, state_view,
  finish_refresh, finish_scrape, collect_snapshot, sync_context,
}

module _ {S F : Type 0} ⦃e : Eq F⦄ (ops : FloatOps F) (def_buckets : List F) (cfg : Config S) where
  resume : State S F × Outcome S F → Time → Time → Time → Option (State S F × View S F)
  unfolding finish_scrape collect_snapshot
  resume (s, cached v) now began ended = some (s, v)
  resume (s, wait seen) now began ended = none
  resume (s, collect) now began ended =
      let (snapshot, duration) = collect_snapshot cfg (sync_context cfg) now began ended in
      some (finish_scrape ops def_buckets cfg s snapshot duration now)

  -- `currentSnapshot`, with the readings of the clock around the snapshotter; `none` if it waits.
  unfoldable pub current_snapshot : State S F → Time → Time → Time → Option (State S F × View S F)
  unfolding resume enter
  current_snapshot s now began ended = resume (enter cfg s now) now began ended

  -- What a scrape that refreshes leaves behind.
  unfoldable pub refreshed : State S F → Time → Time → Time → State S F
  unfolding collect_snapshot finish_refresh
  refreshed s now began ended =
      let (snapshot, duration) = collect_snapshot cfg (sync_context cfg) now began ended in
      finish_refresh ops def_buckets cfg s snapshot duration now

  -- With no refresh under way a scrape never waits. It returns what the collector holds afterwards,
  -- which is what it held before if the cache is fresh, and else the result of one synchronous
  -- refresh.
  pub current_snapshot_cases :
      (s : State S F) (now began ended : Time)
      → s.refreshing ≡ false
      → current_snapshot s now began ended ≡ (
          if is_fresh cfg s now
          then some (s, state_view s)
          else some (refreshed s now began ended, state_view (refreshed s now began ended)))
  unfolding current_snapshot refreshed
  current_snapshot_cases s now began ended h = ground arith

  -- After a synchronous refresh at `now`, a scrape at `later` is answered from the cache, with the
  -- same view, exactly if the background loop runs or the attempt is younger than the interval.
  pub scrape_again :
      (s : State S F) (now began ended later : Time)
      → is_fresh cfg (refreshed s now began ended) later ≡ (
          s.background_started
          || shorter
              (sub later
                (timed (cfg.status_func (cfg.snapshotter (sync_context cfg) now)) now).attempt_time)
              cfg.refresh_interval)
  unfolding refreshed is_fresh
  scrape_again s now began ended later = refl
