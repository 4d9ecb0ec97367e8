-- ===== src/Snapshot/System/Wakeups.antt =====
-- No wakeup is lost: a scrape that waits has been woken since, or a refresh will do it.
use prometheus_exporter_fram.Prelude.{
  ℕ, zero, suc, ◌++◌, Bool, ◌<◌, true, false, some, List, [], ◌∷◌, ◌≡◌, ◌⊎◌, inl, inr, Eq,
  get_elem?, set, arith,
}
use prometheus_exporter_fram.Clock.{Time}
use prometheus_exporter_fram.Snapshot.Histogram.{FloatOps}
use prometheus_exporter_fram.Snapshot.Collector.{
  Config, State, enter, begin_refresh, start, stop, store_snapshot, broadcast, finish_refresh,
  finish_scrape,
}
use prometheus_exporter_fram.Snapshot.System.{
  Thread, idle, scraping, waiting, collecting, done, looping, refreshing, loading, stopped,
  Collected, World, after_enter, after_begin, spawned, Step, call, look, wake, wait_again, store,
  launch, tick, begin, finish, cancel, Reach, here, next,
}
use prometheus_exporter_fram.Snapshot.System.Exclusion.{owns, initial, AllIdle}
use prometheus_exporter_fram.Snapshot.System.Replay.{set-cases}

module _ {S F : Type 0} where
  -- A broadcast has come since a thread has waited, or a refresh is under way that will end with one.
  abbrev pub Heard : State S F → ℕ → Type 0
  Heard s seen = (seen < s.cond) ⊎ ((seen ≡ s.cond) × (s.refreshing ≡ true))

  abbrev pub AllHeard : World S F → Type 0
  AllHeard w = (j seen : ℕ) → get_elem? w.threads j ≡ some (waiting seen) → Heard w.state seen

  pub get-set_other :
      (ts : List (Thread S F)) (i j : ℕ) (t u x : Thread S F)
      → get_elem? ts i ≡ some t
      → get_elem? ts j ≡ some u
      → owns t ≡ true
      → owns u ≡ false
      → get_elem? (set ts i x) j ≡ some u
  get-set_other [] i j t u x p q o n = cc
  get-set_other (z ∷ ts) zero zero t u x p q o n = absurd (cc)
  get-set_other (z ∷ ts) zero (suc j) t u x p q o n = q
  get-set_other (z ∷ ts) (suc i) zero t u x p q o n = q
  get-set_other (z ∷ ts) (suc i) (suc j) t u x p q o n = get-set_other ts i j t u x p q o n

module _ {S F : Type 0} ⦃e : Eq F⦄ (ops : FloatOps F) (def_buckets : List F) (cfg : Config S) where
  -- One thread moves to a place, and the guarded fields change.
  moved :
      (s s' : State S F) (ts : List (Thread S F)) (i : ℕ) (t : Thread S F)
      → ((seen : ℕ) → t ≡ waiting seen → Heard s' seen)
      → ((seen : ℕ) → Heard s seen → Heard s' seen)
      → ((j seen : ℕ) → get_elem? ts j ≡ some (waiting seen) → Heard s seen)
      → (j seen : ℕ) → get_elem? (set ts i t) j ≡ some (waiting seen)
      → Heard s' seen
  moved s s' ts i t new kept old j seen h =
      elim (set-cases ops def_buckets cfg ts i j t (waiting seen) h) [
        | inl p ↦ new seen p
        | inr q ↦ kept seen (old j seen q)
      ]

  spawned-waiting :
      (started cancelled : Bool) (now : Time) (ts : List (Thread S F)) (j seen : ℕ)
      → get_elem? (spawned started cancelled now ++ ts) j ≡ some (waiting seen)
      → (k : ℕ) × (get_elem? ts k ≡ some (waiting seen))
  spawned-waiting false cancelled now ts j seen h = (j, h)
  spawned-waiting true true now ts zero seen h = cc
  spawned-waiting true true now ts (suc j) seen h = (j, h)
  spawned-waiting true false now ts zero seen h = cc
  spawned-waiting true false now ts (suc j) seen h = (j, h)

  -- the guarded fields that `Heard` reads
  enter-Heard :
      (s : State S F) (now : Time) (seen : ℕ) → Heard s seen → Heard (enter cfg s now).0 seen
  unfolding enter
  enter-Heard s now seen h = ground arith

  entered :
      (s : State S F) (now : Time) (seen : ℕ)
      → after_enter now (enter cfg s now).1 ≡ waiting seen
      → Heard (enter cfg s now).0 seen
  unfolding enter
  entered s now seen h = inr (ground arith)

  begin-Heard : (s : State S F) (seen : ℕ) → Heard s seen → Heard (begin_refresh s).0 seen
  unfolding begin_refresh
  begin-Heard s seen h = ground arith

  start-Heard : (s : State S F) (seen : ℕ) → Heard s seen → Heard (start s).0 seen
  unfolding start
  start-Heard s seen h = ground arith

  finish-Heard :
      (s : State S F) (c : Collected S) (now : Time) (seen : ℕ)
      → Heard s seen
      → Heard (finish_refresh ops def_buckets cfg s c.snapshot c.duration now) seen
  unfolding finish_refresh store_snapshot broadcast
  finish-Heard s c now seen h = inl (ground arith)

  began :
      (s : State S F) (now : Time) (seen : ℕ)
      → after_begin {S = S} {F = F} now (begin_refresh s).1 ≡ waiting seen
      → Heard (begin_refresh s).0 seen
  unfolding begin_refresh
  began s now seen h = absurd (ground arith)

  module _ {w u : World S F} (f : AllHeard w) where
    step-AllHeard : Step ops def_buckets cfg w u → AllHeard u
    unfolding stop finish_scrape
    step-AllHeard (call i now at eq) =
        rw eq (moved w.state w.state w.threads i (scraping now) (λ n p. cc) (λ n h. h) f)
    step-AllHeard (look i now at eq) = rw eq (
        moved w.state (enter cfg w.state now).0 w.threads i
          (after_enter now (enter cfg w.state now).1) (entered w.state now)
          (enter-Heard w.state now) f)
    step-AllHeard (wake i seen now at heard free eq) =
        rw eq (moved w.state w.state w.threads i (scraping now) (λ n p. cc) (λ n h. h) f)
    step-AllHeard (wait_again i seen at heard busy eq) = rw eq (
        moved w.state w.state w.threads i (waiting w.state.cond) (λ n p. inr (ground arith))
          (λ n h. h) f)
    step-AllHeard (store i now c at time eq) = rw eq (
        moved w.state (finish_refresh ops def_buckets cfg w.state c.snapshot c.duration now)
          w.threads i (done (finish_scrape ops def_buckets cfg w.state c.snapshot c.duration now).1)
          (λ n p. cc) (finish-Heard w.state c now) f)
    step-AllHeard (launch cancelled now eq) = rw eq (λ j seen h.
        let (k, at) = spawned-waiting (start w.state).1 cancelled now w.threads j seen h in
        start-Heard w.state seen (f k seen at))
    step-AllHeard (tick i now at eq) =
        rw eq (moved w.state w.state w.threads i (refreshing now) (λ n p. cc) (λ n h. h) f)
    step-AllHeard (begin i now at eq) = rw eq (
        moved w.state (begin_refresh w.state).0 w.threads i
          (after_begin now (begin_refresh w.state).1) (began w.state now) (begin-Heard w.state) f)
    step-AllHeard (finish i now c at time eq) = rw eq (
        moved w.state (finish_refresh ops def_buckets cfg w.state c.snapshot c.duration now)
          w.threads i looping (λ n p. cc) (finish-Heard w.state c now) f)
    step-AllHeard (cancel i at eq) =
        rw eq (moved w.state (stop w.state) w.threads i stopped (λ n p. cc) (λ n h. h) f)

  idle-waiting :
      (ts : List (Thread S F)) (j seen : ℕ) → AllIdle ts → get_elem? ts j ≡ some (waiting seen) → ⊥
  idle-waiting [] j seen h p = cc
  idle-waiting (idle ∷ ts) zero seen h p = cc
  idle-waiting (idle ∷ ts) (suc j) seen h p = idle-waiting ts j seen h p
  idle-waiting (scraping now ∷ ts) j seen h p = h
  idle-waiting (waiting n ∷ ts) j seen h p = h
  idle-waiting (collecting now ∷ ts) j seen h p = h
  idle-waiting (done v ∷ ts) j seen h p = h
  idle-waiting (looping ∷ ts) j seen h p = h
  idle-waiting (refreshing now ∷ ts) j seen h p = h
  idle-waiting (loading now ∷ ts) j seen h p = h
  idle-waiting (stopped ∷ ts) j seen h p = h

  -- No wakeup is lost.
  pub Reach-AllHeard :
      (z : S) (ts : List (Thread S F)) (w : World S F)
      → AllIdle ts
      → Reach ops def_buckets cfg (initial ops def_buckets cfg z ts) w
      → AllHeard w
  unfolding initial
  Reach-AllHeard z ts w h here = λ j seen p. absurd (idle-waiting ts j seen h p)
  Reach-AllHeard z ts w h (next {t = t} r st) = step-AllHeard (Reach-AllHeard z ts t h r) st
