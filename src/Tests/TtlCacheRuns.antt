-- ===== src/Tests/TtlCacheRuns.antt =====
-- A cache of numbers under numbers: overwritten, read at its expiry, deleted, swept.
use prometheus_exporter_fram.Prelude.{
  ℕ, ◌+◌, ◌≡◌, refl, List, [], ◌∷◌, none, pos, negsuc, nat_eq, length, keep, ltb, add_uint64,
  if◌then◌else◌, ◌-◌,
}
use prometheus_exporter_fram.Assoc.{lookup}
use prometheus_exporter_fram.TtlCache.{TtlCache, new_ttl_cache, measure}
use prometheus_exporter_fram.TtlCache.Sweep.{is_live, measure-keep}
use prometheus_exporter_fram.TtlCache.Races as Races
use prometheus_exporter_fram.TtlCache.Races.Refinement.{start, schedule_answers}
use prometheus_exporter_fram.TtlCache.Accounts as Accounts
use prometheus_exporter_fram.TtlCache.Accounts.{
  Accounts, apply_all, tally_all, no_totals, gets, counters_balance,
}

-- A `Get` that has read an expired item meets a value set in between.
abbrev racing : List (Races.Event ℕ ℕ)
racing =
    Races.set 1 10 (pos 5)
    ∷ Races.begin_get 1
    ∷ Races.wait 5
    ∷ Races.begin_get 1
    ∷ Races.set 1 11 (pos 5)
    ∷ Races.end_get 0
    ∷ Races.begin_get 1
    ∷ Races.delete 1
    ∷ Races.len
    ∷ Races.begin_get 1
    ∷ []

schedule_answers_example :
    Races.run (start (pos 5) 100) racing
    ≡ Races.spec_run (record { at = λ j. none; clock = 100 }) racing
schedule_answers_example = schedule_answers (pos 5) 100 racing

abbrev calls : List (Accounts.Call ℕ ℕ)
calls =
    Accounts.set_with_ttl 1 10 (pos 5) 100
    ∷ Accounts.set_with_ttl 2 20 (pos 50) 100
    ∷ Accounts.set_with_ttl 3 30 (negsuc 0) 100
    ∷ Accounts.get 1 106
    ∷ Accounts.get 2 107
    ∷ Accounts.len 160
    ∷ []

counters_balance_example :
    Accounts
      (apply_all (new_ttl_cache (pos 5)) calls)
      (tally_all (new_ttl_cache (pos 5)) no_totals calls)
    × ((tally_all (new_ttl_cache (pos 5)) no_totals calls).hits
          + (tally_all (new_ttl_cache (pos 5)) no_totals calls).misses
        ≡ gets calls)
counters_balance_example = counters_balance (pos 5) calls

-- two entries, of which one has expired at 110
abbrev two_items : TtlCache ℕ ℕ
two_items = record {
  ttl = pos 5;
  items =
      (1, record { value = 10; expires_at = 105 })
      ∷ (2, record { value = 20; expires_at = 120 })
      ∷ [];
  hits = 0;
  misses = 0;
  sets = 2;
  deletes = 0;
  expired = 0;
  clears = 0;
}

measure-keep_example :
    ((measure two_items 110).0.items ≡ keep (is_live 110) two_items.items)
    × ((measure two_items 110).1 ≡ length (keep (is_live 110) two_items.items))
    × ((measure two_items 110).0.expired ≡ (
        if ltb (length (keep (is_live 110) two_items.items)) (length two_items.items)
        then add_uint64 two_items.expired
            (length two_items.items - length (keep (is_live 110) two_items.items))
        else two_items.expired))
unfolding lookup
measure-keep_example = measure-keep two_items 110 (refl, (refl, tt))
