-- ===== src/Tests/LastKnownGoodRuns.antt =====
-- A store of numbers under numbers, with failures before and after a success.
use prometheus_exporter_fram.Prelude.{
  ℕ, ◌≡◌, refl, List, [], ◌∷◌, some, none, pos, nat_eq, length, if◌then◌else◌, true,
}
use prometheus_exporter_fram.Assoc.{has, lookup, Distinct}
use prometheus_exporter_fram.LastKnownGood.{
  LastKnownGood, new_last_known_good, entries_of, find, get, snapshot, len,
}
use prometheus_exporter_fram.LastKnownGood.History as History
use prometheus_exporter_fram.LastKnownGood.History.{apply_all, summary, history, find-eq-summary}
use prometheus_exporter_fram.LastKnownGood.Snapshots.{snapshot-get}

abbrev attempts : List (History.Event ℕ ℕ)
attempts =
    History.failure 1 100
    ∷ History.success 1 7 101
    ∷ History.success 2 8 102
    ∷ History.failure 1 103
    ∷ History.failure 1 104
    ∷ History.delete 2
    ∷ []

find-eq-summary_example :
    find 0 (apply_all 0 (new_last_known_good (pos 5)) attempts) 1 110
    ≡ summary (pos 5) 0 (history 1 [] attempts) 110
find-eq-summary_example = find-eq-summary 0 (pos 5) attempts 1 110

abbrev one_entry : LastKnownGood ℕ ℕ
one_entry = record {
  stale_after = pos 5;
  entries =
      (
        1,
        record {
          value = 7;
          available = true;
          last_success = 101;
          last_attempt = 104;
          consecutive_failures = 2;
        },
      )
      ∷ [];
}

snapshot-get_example :
    ((key : ℕ)
      → lookup key (snapshot (some one_entry) 110) ≡ (
          if has (lookup key (entries_of (some one_entry)))
          then some (get 0 (some one_entry) key 110)
          else none))
    × Distinct (snapshot (some one_entry) 110)
    × (length (snapshot (some one_entry) 110) ≡ len (some one_entry))
unfolding lookup
snapshot-get_example = snapshot-get 0 (some one_entry) 110 (refl, tt)
