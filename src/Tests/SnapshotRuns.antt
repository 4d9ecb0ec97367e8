-- ===== src/Tests/SnapshotRuns.antt =====
-- Two scrapes of a new collector: the first refreshes while the second waits. Snapshots and floats
-- are numbers, a float counts milliseconds.
use prometheus_exporter_fram.Prelude.{
  arith, ℕ, ◌+◌, ◌≡◌, refl, List, [], ◌∷◌, some, pos, negsuc, nat_eq, leb, true, false, ◌⊎◌, set,
}
use prometheus_exporter_fram.Clock.{Time, Duration}
use prometheus_exporter_fram.Text.{codes}
use prometheus_exporter_fram.Snapshot.Histogram.{FloatOps, clone}
use prometheus_exporter_fram.Snapshot.Histogram.Counts.{observed, Tells, clone-observed-Tells}
use prometheus_exporter_fram.Snapshot.Collector.{
  state_view, View, Config, State, enter, is_fresh, finish_scrape, finish_refresh, store_snapshot,
  broadcast, new_state,
}
use prometheus_exporter_fram.Snapshot.System.{
  Thread, idle, scraping, waiting, collecting, done, Collected, World, Step, call, look, wake,
  store, Reach, here, next,
}
use prometheus_exporter_fram.Snapshot.System.Exclusion.{initial, Exclusive, Reach-Exclusive}
use prometheus_exporter_fram.Snapshot.System.Progress.{Released, waiting_progress}
use prometheus_exporter_fram.Snapshot.System.Replay.{Holds, Exported}
use prometheus_exporter_fram.Snapshot.System.Replay.Steps.{Reach-Holds, Reach-Exported}
use prometheus_exporter_fram.Snapshot.Scrape.{current_snapshot}
use prometheus_exporter_fram.Snapshot.Scrape.Interval.{answers, Refreshed, current_snapshot-answers}
use prometheus_exporter_fram.Metrics.Values.{ValueOps, gauge}
use prometheus_exporter_fram.Snapshot.Emission.{Written, CollectorDescs, const_metric}

abbrev milliseconds : Duration → ℕ
milliseconds (pos n) = n
milliseconds (negsuc n) = 0

abbrev floats : FloatOps ℕ
floats = record {
  zero = 0;
  plus = λ a b. a + b;
  le = leb;
  inf = 1000;
  seconds = milliseconds;
  div = λ a b. a;
  of_int = milliseconds;
}

abbrev bounds : List ℕ
bounds = 5 ∷ 10 ∷ []

-- A snapshot is the number of its refresh time, and a success from time 50 on.
abbrev collector : Config ℕ
collector = record {
  namespace = codes "demo";
  snapshotter = λ ctx now. now;
  refresh_interval = pos 60;
  sync_refresh_timeout = pos 3;
  status_func = λ s. record { attempt_time = 0; success = leb 50 s };
}

abbrev scrapes : List (Thread ℕ ℕ)
scrapes = idle ∷ idle ∷ []

abbrev at_start : World ℕ ℕ
at_start = initial floats bounds collector 0 scrapes

abbrev called : World ℕ ℕ
called = record at_start { threads = scraping 100 ∷ idle ∷ [] }

abbrev called_twice : World ℕ ℕ
called_twice = record at_start { threads = scraping 100 ∷ scraping 101 ∷ [] }

abbrev first_looked : World ℕ ℕ
first_looked = record called_twice {
  state = record (new_state floats bounds 0) { refreshing = true };
  threads = collecting 100 ∷ scraping 101 ∷ [];
}

abbrev both_looked : World ℕ ℕ
both_looked = record first_looked { threads = collecting 100 ∷ waiting 0 ∷ [] }

abbrev collection : Collected ℕ
collection = record { snapshot = 100; duration = pos 7; refresh_time = 100 }

abbrev stored : World ℕ ℕ
stored =
    let (s, v) = finish_scrape floats bounds collector both_looked.state 100 (pos 7) 100 in
    record { state = s; threads = done v ∷ waiting 0 ∷ []; log = collection ∷ [] }

Reach-both_looked : Reach floats bounds collector at_start both_looked
unfolding initial new_state enter is_fresh
Reach-both_looked =
    next {t = first_looked}
      (next {t = called_twice}
        (next {t = called} (next {t = at_start} here (call 0 100 refl refl)) (call 1 101 refl refl))
        (look 0 100 refl refl))
      (look 1 101 refl refl)

Reach-stored : Reach floats bounds collector at_start stored
unfolding initial new_state
Reach-stored = next Reach-both_looked (store 0 100 collection refl refl refl)

Reach-Exported_example :
    Exported floats bounds collector stored.log
      (finish_scrape floats bounds collector both_looked.state 100 (pos 7) 100).1
Reach-Exported_example =
    Reach-Exported floats bounds collector 0 scrapes stored 0
      (finish_scrape floats bounds collector both_looked.state 100 (pos 7) 100).1 tt Reach-stored
      refl

Reach-Holds_example : Holds floats bounds collector stored.state stored.log
Reach-Holds_example = Reach-Holds floats bounds collector 0 scrapes stored tt Reach-stored

Reach-Exclusive_example : Exclusive both_looked
Reach-Exclusive_example =
    Reach-Exclusive floats bounds collector 0 scrapes both_looked tt Reach-both_looked

waiting_progress_example :
    Step floats bounds collector both_looked
      (record both_looked { threads = set both_looked.threads 1 (scraping 102) })
    ⊎ Released floats bounds collector both_looked 1 102
waiting_progress_example =
    waiting_progress floats bounds collector 0 scrapes both_looked 1 0 102 tt Reach-both_looked refl

-- The scrape that waited goes on after the broadcast of the one that refreshed.
Reach-woken :
    Reach floats bounds collector at_start
      (record stored { threads = set stored.threads 1 (scraping 102) })
unfolding initial new_state finish_scrape finish_refresh store_snapshot broadcast
Reach-woken = next Reach-stored (wake 1 0 102 refl (omega arith) refl refl)

clone-observed-Tells_example :
    Tells floats bounds
      (clone (observed floats bounds (pos 7 ∷ pos 3 ∷ pos 12 ∷ [])))
      (pos 7 ∷ pos 3 ∷ pos 12 ∷ [])
clone-observed-Tells_example =
    clone-observed-Tells floats bounds (refl, (refl, tt)) refl (pos 7 ∷ pos 3 ∷ pos 12 ∷ [])

abbrev empty : State ℕ ℕ
empty = new_state floats bounds 0

abbrev four_descs : CollectorDescs ℕ
four_descs = record {
  last_collection_success_desc = 1;
  last_collection_timestamp_desc = 2;
  last_successful_collection_desc = 3;
  collection_duration_desc = 4;
}

abbrev numbers : ValueOps ℕ
numbers = record { of_int = λ n. n; unix_nano = λ t. t }

-- a hook that writes the snapshot as a gauge of the descriptor 9
abbrev one_gauge : ℕ → Time → List (Written ℕ ℕ)
one_gauge snapshot now =
    const_metric (record { desc = 9; type = gauge; value = snapshot; label_values = [] }) ∷ []

-- Within the interval of the attempt the cache answers.
current_snapshot-answers_example :
    (s' : State ℕ ℕ) × (v : View ℕ ℕ) × (current_snapshot floats bounds collector stored.state 130
        130 137
      ≡ some (s', v))
    × (v ≡ state_view s')
    × (((answers floats bounds collector stored.state 60 130 ≡ true) × (s' ≡ stored.state))
        ⊎ ((answers floats bounds collector stored.state 60 130 ≡ false)
            × Refreshed floats bounds collector stored.state s' 130))
unfolding finish_scrape finish_refresh
current_snapshot-answers_example =
    current_snapshot-answers floats bounds collector stored.state 60 130 130 137 refl refl
      (omega arith) (omega arith)
