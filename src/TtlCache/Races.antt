-- ===== src/TtlCache/Races.antt =====
-- Calls of several goroutines on one cache. Each critical section is one event; a `Get` that saw a
-- dead entry waits in `pending` until its second section runs, with any other events in between.
-- The specification is a map with expiry times from which nothing is ever cleaned up.
pub mod Refinement
use prometheus_exporter_fram.Prelude.{
  ℕ, ◌+◌, ◌≤◌, ◌≡◌, refl, Option, none, some, List, [], ◌∷◌, arith, Eq, ◌==◌, get_elem?,
  if◌then◌else◌,
}
use prometheus_exporter_fram.Clock.{Time, Duration, add, is_positive}
use prometheus_exporter_fram.Assoc.{Distinct, insert-Distinct, erase-Distinct}
use prometheus_exporter_fram.TtlCache.{
  TtlCache, Item, Seen, answer, dead, read, expire, miss, store, drop_key, wipe, measure,
}
use prometheus_exporter_fram.TtlCache.View.{live, view}
use prometheus_exporter_fram.TtlCache.Sweep.{measure-keep, keep-Distinct}

pub data Event {ℓ} (K V : Type ℓ) : Type ℓ where
  wait : ℕ → Event K V
  set : K → V → Duration → Event K V
  delete : K → Event K V
  clear : Event K V
  len : Event K V
  begin_get : K → Event K V
  end_get : ℕ → Event K V

pub record World {ℓ} (K V : Type ℓ) : Type ℓ where
  pub cache : TtlCache K V
  pub clock : Time
  pub pending : List (K × Time)

module _ {ℓ} {K V : Type ℓ} ⦃e : Eq K⦄ where
  -- A `Get` that saw a live entry or none has its answer; one that saw a dead entry will answer
  -- that there is none.
  unfoldable pub begin : World K V → K → TtlCache K V × Seen V → World K V × Option V
  begin w key (c, answer v) = (record w { cache = c }, v)
  begin w key (c, dead at) = (record w { cache = c; pending = (key, at) ∷ w.pending }, none)

  unfoldable pub end : World K V → Option (K × Time) → World K V × Option V
  end w none = (w, none)
  end w (some (key, at)) = (record w { cache = miss (expire w.cache key at) }, none)

  -- One event, and the answer of a `Get` that begins with it.
  unfoldable pub step : World K V → Event K V → World K V × Option V
  unfolding begin end
  step w (wait n) = (record w { clock = w.clock + n }, none)
  step w (set key value ttl) = (record w { cache = store w.cache key value ttl w.clock }, none)
  step w (delete key) = (record w { cache = drop_key w.cache key }, none)
  step w clear = (record w { cache = wipe w.cache }, none)
  step w len = (record w { cache = (measure w.cache w.clock).0 }, none)
  step w (begin_get key) = begin w key (read w.cache key w.clock)
  step w (end_get i) = end w (get_elem? w.pending i)

  unfoldable pub run : World K V → List (Event K V) → List (Option V)
  run w [] = []
  run w (ev ∷ evs) = let (w', v) = step w ev in v ∷ run w' evs

-- The specification: the last item set under each key, unless it was deleted or cleared.
pub record Spec {ℓ} (K V : Type ℓ) : Type ℓ where
  pub at : K → Option (Item V)
  pub clock : Time

module _ {ℓ} {K V : Type ℓ} ⦃e : Eq K⦄ where
  abbrev spec_set : Spec K V → K → V → Duration → Spec K V
  spec_set s key value ttl = record s {
    at = λ j.
        if key == j then some (record { value = value; expires_at = add s.clock ttl }) else s.at j;
  }

  unfoldable pub spec_step : Spec K V → Event K V → Spec K V × Option V
  spec_step s (wait n) = (record s { clock = s.clock + n }, none)
  spec_step s (set key value ttl) = (if is_positive ttl then spec_set s key value ttl else s, none)
  spec_step s (delete key) = (record s { at = λ j. if key == j then none else s.at j }, none)
  spec_step s clear = (record s { at = λ j. none }, none)
  spec_step s len = (s, none)
  spec_step s (begin_get key) = (s, live s.clock (s.at key))
  spec_step s (end_get i) = (s, none)

  unfoldable pub spec_run : Spec K V → List (Event K V) → List (Option V)
  spec_run s [] = []
  spec_run s (ev ∷ evs) = let (s', v) = spec_step s ev in v ∷ spec_run s' evs

  pub record Refines (w : World K V) (s : Spec K V) : Type ℓ where
    pub same_clock : w.clock ≡ s.clock
    pub distinct : Distinct w.cache.items
    pub seen_dead :
        (i : ℕ) (key : K) (at : Time) → get_elem? w.pending i ≡ some (key, at) → at ≤ w.clock
    pub views :
        (later : Time) → w.clock ≤ later → (j : K) → view w.cache later j ≡ live later (s.at j)
