-- ===== src/TtlCache/Races/Refinement.antt =====
-- Every schedule of critical sections refines the specification: each `Get` answers as if it were
-- one atomic step, and the clean-up that other calls interleave with is never seen.
use prometheus_exporter_fram.Prelude.{
  ℕ, zero, suc, ◌≤◌, ◌≡◌, refl, ◌∙◌, Option, none, some, List, [], ◌∷◌, arith, Eq, get_elem?,
  Bool-cases, inl, inr,
}
use prometheus_exporter_fram.Clock.{Time, Duration, before, add}
use prometheus_exporter_fram.Assoc.{lookup, Distinct, insert-Distinct, erase-Distinct}
use prometheus_exporter_fram.TtlCache.{
  new_ttl_cache, TtlCache, Item, read, read_item, expire, miss, store, drop_key, wipe, measure,
}
use prometheus_exporter_fram.TtlCache.View.{
  live, view, view-expire, view-store, view-drop_key, view-wipe,
}
use prometheus_exporter_fram.TtlCache.Sweep.{measure-keep, view-measure, keep-Distinct}
use prometheus_exporter_fram.TtlCache.Races.{
  Event, wait, set, delete, clear, len, begin_get, end_get, World, begin, end, step, run, Spec,
  spec_step, spec_run, Refines,
}

module _ {ℓ} {K V : Type ℓ} ⦃e : Eq K⦄ where
  items-expire :
      (c : TtlCache K V) (key : K) (at : Time)
      → Distinct c.items
      → Distinct (miss (expire c key at)).items
  unfolding miss expire
  items-expire c key at d = ground (arith, erase-Distinct key c.items d)

  items-drop_key : (c : TtlCache K V) (key : K) → Distinct c.items → Distinct (drop_key c key).items
  unfolding drop_key
  items-drop_key c key d = ground (arith, erase-Distinct key c.items d)

  items-store :
      (c : TtlCache K V) (key : K) (value : V) (ttl : Duration) (now : Time)
      → Distinct c.items
      → Distinct (store c key value ttl now).items
  unfolding store
  items-store c key value ttl now d =
      ground
        (arith, insert-Distinct key (record { value = value; expires_at = add now ttl }) c.items d)

  items-measure :
      (c : TtlCache K V) (now : Time) → Distinct c.items → Distinct (measure c now).0.items
  items-measure c now d = rw (measure-keep c now d).0 (keep-Distinct now c.items d)

  view-miss : (c : TtlCache K V) (now : Time) (j : K) → view (miss c) now j ≡ view c now j
  unfolding view miss
  view-miss c now j = refl

  module _ {w : World K V} {s : Spec K V} (r : Refines w s) where
    wait-Refines : (n : ℕ) → Refines (step w (wait n)).0 (spec_step s (wait n)).0
    unfolding step spec_step
    wait-Refines n = record {
      same_clock = omega (arith, r.same_clock);
      distinct = r.distinct;
      seen_dead = λ i key at h. omega (arith, r.seen_dead i key at h);
      views = λ later h j. r.views later (omega arith) j;
    }

    delete-Refines : (k : K) → Refines (step w (delete k)).0 (spec_step s (delete k)).0
    unfolding step spec_step
    delete-Refines k = record {
      same_clock = r.same_clock;
      distinct = items-drop_key w.cache k r.distinct;
      seen_dead = r.seen_dead;
      views = λ later h j. ground (arith, view-drop_key w.cache k later j, r.views later h j);
    }

    clear-Refines : Refines (step w clear).0 (spec_step s clear).0
    unfolding step spec_step wipe
    clear-Refines = record {
      same_clock = r.same_clock;
      distinct = tt;
      seen_dead = r.seen_dead;
      views = λ later h j. view-wipe w.cache later j;
    }

    len-Refines : Refines (step w len).0 (spec_step s len).0
    unfolding step spec_step
    len-Refines = record {
      same_clock = r.same_clock;
      distinct = items-measure w.cache w.clock r.distinct;
      seen_dead = r.seen_dead;
      views = λ later h j. view-measure w.cache w.clock later j r.distinct h ∙ r.views later h j;
    }

    set-Refines :
        (k : K) (v : V) (ttl : Duration)
        → Refines (step w (set k v ttl)).0 (spec_step s (set k v ttl)).0
    unfolding step spec_step
    set-Refines k v ttl = record {
      same_clock = ground (arith, r.same_clock);
      distinct = items-store w.cache k v ttl w.clock r.distinct;
      seen_dead = r.seen_dead;
      views = λ later h j.
          ground
            (arith, view-store w.cache k v ttl w.clock later j, r.views later h j, r.same_clock);
    }

    begin-Refines :
        (k : K) (o : Option (Item V)) → Refines (begin w k (read_item w.cache o w.clock)).0 s
    unfolding begin read_item miss view
    begin-Refines k none = record {
      same_clock = r.same_clock;
      distinct = r.distinct;
      seen_dead = r.seen_dead;
      views = r.views;
    }
    begin-Refines k (some item) = elim (Bool-cases (before w.clock item.expires_at)) [
      | inl p ↦ rw p (record {
        same_clock = r.same_clock;
        distinct = r.distinct;
        seen_dead = r.seen_dead;
        views = r.views;
      })
      | inr p ↦ rw p (record {
        same_clock = r.same_clock;
        distinct = r.distinct;
        seen_dead = seen k item.expires_at (ground arith);
        views = r.views;
      })
    ]
      where
        seen :
            (k : K) (t : Time)
            → t ≤ w.clock
            → (i : ℕ) (key : K) (at : Time) → get_elem? ((k, t) ∷ w.pending) i ≡ some (key, at)
            → at ≤ w.clock
        seen k t h zero key at p = ground arith
        seen k t h (suc i) key at p = r.seen_dead i key at p

    begin_get-Refines : (k : K) → Refines (step w (begin_get k)).0 (spec_step s (begin_get k)).0
    unfolding step spec_step read
    begin_get-Refines k = begin-Refines k (lookup k w.cache.items)

    end-Refines :
        (o : Option (K × Time))
        → ((key : K) (at : Time) → o ≡ some (key, at) → at ≤ w.clock)
        → Refines (end w o).0 s
    unfolding end
    end-Refines none old = r
    end-Refines (some (key, at)) old = record {
      same_clock = r.same_clock;
      distinct = items-expire w.cache key at r.distinct;
      seen_dead = r.seen_dead;
      views = λ later h j.
          view-miss (expire w.cache key at) later j
          ∙ view-expire w.cache key at later j (omega (arith, old key at refl))
          ∙ r.views later h j;
    }

    end_get-Refines : (i : ℕ) → Refines (step w (end_get i)).0 (spec_step s (end_get i)).0
    unfolding step spec_step
    end_get-Refines i = end-Refines (get_elem? w.pending i) (r.seen_dead i)

    begin_get_answer : (k : K) → (step w (begin_get k)).1 ≡ live s.clock (s.at k)
    unfolding step begin read read_item view
    begin_get_answer k = ground (arith, r.views w.clock (omega arith) k, r.same_clock)

  pub step-Refines :
      {w : World K V} {s : Spec K V} (ev : Event K V)
      → Refines w s
      → Refines (step w ev).0 (spec_step s ev).0
  step-Refines (wait n) r = wait-Refines r n
  step-Refines (set k v ttl) r = set-Refines r k v ttl
  step-Refines (delete k) r = delete-Refines r k
  step-Refines clear r = clear-Refines r
  step-Refines len r = len-Refines r
  step-Refines (begin_get k) r = begin_get-Refines r k
  step-Refines (end_get i) r = end_get-Refines r i

  step_answer :
      {w : World K V} {s : Spec K V} (ev : Event K V)
      → Refines w s
      → (step w ev).1 ≡ (spec_step s ev).1
  unfolding step spec_step end
  step_answer (begin_get k) r = begin_get_answer r k
  step_answer (end_get i) r = ground arith
  step_answer ev r = refl

  -- Whatever the schedule, the answers are those of the specification.
  pub run-eq-spec_run :
      (evs : List (Event K V)) {w : World K V} {s : Spec K V}
      → Refines w s
      → run w evs ≡ spec_run s evs
  unfolding run spec_run
  run-eq-spec_run [] r = refl
  run-eq-spec_run (ev ∷ evs) r = cc (step_answer ev r, run-eq-spec_run evs (step-Refines ev r))

  pub start : Duration → Time → World K V
  start ttl now = record { cache = new_ttl_cache ttl; clock = now; pending = [] }

  start-Refines :
      (ttl : Duration) (now : Time)
      → Refines (start ttl now) (record { at = λ j. none; clock = now })
  unfolding start new_ttl_cache view lookup
  start-Refines ttl now = record {
    same_clock = refl;
    distinct = tt;
    seen_dead = λ i key at h. cc;
    views = λ later h j. refl;
  }

  -- On a new cache, whatever critical sections of whatever calls follow one another, each `Get`
  -- answers as the map from which nothing is cleaned up: with the last value set under its key, if
  -- that has neither expired at the reading of the clock nor been deleted or cleared, else none.
  pub schedule_answers :
      (ttl : Duration) (now : Time) (evs : List (Event K V))
      → run (start ttl now) evs ≡ spec_run (record { at = λ j. none; clock = now }) evs
  schedule_answers ttl now evs = run-eq-spec_run evs (start-Refines ttl now)
