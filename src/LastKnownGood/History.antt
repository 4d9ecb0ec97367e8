-- ===== src/LastKnownGood/History.antt =====
-- `Get` as a function of what happened to its key: the attempts since the key was last deleted,
-- newest first.
use prometheus_exporter_fram.Prelude.{
  ℕ, ◌+◌, ◌%◌, ◌^◌, ◌≡◌, refl, ap, true, not, ◌&&◌, Option, none, some, List, [], ◌∷◌, arith, Eq,
  ◌==◌, ==_iff, add_uint64, if◌then◌else◌, Bool-cases, Option-cases, inl, inr,
}
use prometheus_exporter_fram.Clock.{Time, Duration, before, add, is_positive}
use prometheus_exporter_fram.Assoc.{lookup, lookup-insert, lookup-erase}
use prometheus_exporter_fram.LastKnownGood.{
  Entry, Result, LastKnownGood, new_last_known_good, zero_entry, zero_result, entry_or_zero,
  result_or_zero, succeed, fail, forget, find,
}

pub data Attempt {ℓ} (V : Type ℓ) : Type ℓ where
  good : V → Time → Attempt V
  bad : Time → Attempt V

pub data Event {ℓ} (K V : Type ℓ) : Type ℓ where
  success : K → V → Time → Event K V
  failure : K → Time → Event K V
  delete : K → Event K V

module _ {ℓ} {V : Type ℓ} where
  -- the newest success
  unfoldable pub last_good : List (Attempt V) → Option (V × Time)
  last_good [] = none
  last_good (good v t ∷ h) = some (v, t)
  last_good (bad t ∷ h) = last_good h

  -- how many failures are newer than the newest success
  unfoldable pub streak : List (Attempt V) → ℕ
  streak [] = 0
  streak (good v t ∷ h) = 0
  streak (bad t ∷ h) = streak h + 1

  unfoldable pub attempt_time : List (Attempt V) → Time
  attempt_time [] = 0
  attempt_time (good v t ∷ h) = t
  attempt_time (bad t ∷ h) = t

  unfoldable pub summary_from : Duration → V → Option (V × Time) → ℕ → Time → Time → Result V
  summary_from stale_after zero_value none failures attempt now = record (zero_result zero_value) {
    last_attempt = attempt;
    consecutive_failures = failures;
  }
  summary_from stale_after zero_value (some (v, t)) failures attempt now = record {
    value = v;
    available = true;
    stale = is_positive stale_after && not (before now (add t stale_after));
    last_success = t;
    last_attempt = attempt;
    consecutive_failures = failures;
  }

  -- What a client should read after the attempts: the value and time of the newest success if
  -- there is one, the time of the newest attempt and the failures since, modulo 2 ^ 64.
  unfoldable pub summary : Duration → V → List (Attempt V) → Time → Result V
  unfolding summary_from
  summary stale_after zero_value h now =
      summary_from stale_after zero_value (last_good h) (streak h % 2 ^ 64) (attempt_time h) now

module _ {ℓ} {K V : Type ℓ} ⦃e : Eq K⦄ (zero_value : V) where
  unfoldable pub apply : LastKnownGood K V → Event K V → LastKnownGood K V
  apply l (success key value now) = succeed l key value now
  apply l (failure key now) = fail zero_value l key now
  apply l (delete key) = forget l key

  unfoldable pub apply_all : LastKnownGood K V → List (Event K V) → LastKnownGood K V
  apply_all l [] = l
  apply_all l (ev ∷ evs) = apply_all (apply l ev) evs

module _ {ℓ} {K V : Type ℓ} ⦃e : Eq K⦄ where
  unfoldable pub note : K → List (Attempt V) → Event K V → List (Attempt V)
  note key h (success k v t) = if k == key then good v t ∷ h else h
  note key h (failure k t) = if k == key then bad t ∷ h else h
  note key h (delete k) = if k == key then [] else h

  unfoldable pub history : K → List (Attempt V) → List (Event K V) → List (Attempt V)
  history key h [] = h
  history key h (ev ∷ evs) = history key (note key h ev) evs

module _ {ℓ} {V : Type ℓ} (zero_value : V) where
  -- the entry that stands for a history
  stored : List (Attempt V) → Option (V × Time) → Entry V
  stored h none = record (zero_entry zero_value) {
    last_attempt = attempt_time h;
    consecutive_failures = streak h % 2 ^ 64;
  }
  stored h (some (v, t)) = record {
    value = v;
    available = true;
    last_success = t;
    last_attempt = attempt_time h;
    consecutive_failures = streak h % 2 ^ 64;
  }

  entry_of : List (Attempt V) → Option (Entry V)
  unfolding stored
  entry_of [] = none
  entry_of (a ∷ h) = some (stored (a ∷ h) (last_good (a ∷ h)))

  result-entry_of :
      (stale_after : Duration) (h : List (Attempt V)) (now : Time)
      → result_or_zero zero_value stale_after (entry_of h) now
        ≡ summary stale_after zero_value h now
  unfolding result_or_zero entry_of summary last_good streak attempt_time
  result-entry_of stale_after [] now = refl
  result-entry_of stale_after (good v t ∷ h) now = refl
  result-entry_of stale_after (bad t ∷ h) now = elim (Option-cases (last_good h)) [
    | inl p ↦ rw (p, stored, summary_from)
    | inr q ↦ rw (q.1, stored, summary_from)
  ]

  entry_or_zero-entry_of :
      (h : List (Attempt V)) → entry_or_zero zero_value (entry_of h) ≡ stored h (last_good h)
  unfolding entry_of last_good streak attempt_time
  entry_or_zero-entry_of [] = refl
  entry_or_zero-entry_of (a ∷ h) = refl

  stored-bad :
      (h : List (Attempt V)) (t : Time) (o : Option (V × Time))
      → record (stored h o) {
        last_attempt = t;
        consecutive_failures = add_uint64 (stored h o).consecutive_failures 1;
      }
        ≡ stored (bad t ∷ h) o
  unfolding stored streak attempt_time
  stored-bad h t none = ground arith
  stored-bad h t (some (v, u)) = ground arith

module _ {ℓ} {K V : Type ℓ} ⦃e : Eq K⦄ (zero_value : V) where
  lookup-apply :
      (l : LastKnownGood K V) (key : K) (h : List (Attempt V)) (ev : Event K V)
      → lookup key l.entries ≡ entry_of zero_value h
      → lookup key (apply zero_value l ev).entries ≡ entry_of zero_value (note key h ev)
  unfolding apply note succeed forget fail entry_of last_good streak attempt_time
  lookup-apply l key h (success k v t) p = elim (Bool-cases (k == key)) [
    | inl q ↦ rw (lookup-insert, q)
    | inr q ↦ rw (lookup-insert, q) p
  ]
  lookup-apply l key h (failure k t) p = elim (Bool-cases (k == key)) [
    | inl q ↦
        rw (lookup-insert, q, (==_iff k key).0 q, p, entry_or_zero-entry_of)
          (ap some (stored-bad zero_value h t (last_good h)))
    | inr q ↦ rw (lookup-insert, q) p
  ]
  lookup-apply l key h (delete k) p = elim (Bool-cases (k == key)) [
    | inl q ↦ rw (lookup-erase, q)
    | inr q ↦ rw (lookup-erase, q) p
  ]

  stale_after-apply_all :
      (l : LastKnownGood K V) (evs : List (Event K V))
      → (apply_all zero_value l evs).stale_after ≡ l.stale_after
  unfolding apply_all apply succeed fail forget
  stale_after-apply_all l [] = refl
  stale_after-apply_all l (success k v t ∷ evs) = stale_after-apply_all (succeed l k v t) evs
  stale_after-apply_all l (failure k t ∷ evs) = stale_after-apply_all (fail zero_value l k t) evs
  stale_after-apply_all l (delete k ∷ evs) = stale_after-apply_all (forget l k) evs

  lookup-apply_all :
      (l : LastKnownGood K V) (key : K) (h : List (Attempt V)) (evs : List (Event K V))
      → lookup key l.entries ≡ entry_of zero_value h
      → lookup key (apply_all zero_value l evs).entries ≡ entry_of zero_value (history key h evs)
  unfolding apply_all history
  lookup-apply_all l key h [] p = p
  lookup-apply_all l key h (ev ∷ evs) p =
      lookup-apply_all (apply zero_value l ev) key (note key h ev) evs (lookup-apply l key h ev p)

  -- On a new store, after any calls, `Get` returns the summary of the attempts on its key since it
  -- was last deleted.
  pub find-eq-summary :
      (stale_after : Duration) (evs : List (Event K V)) (key : K) (now : Time)
      → find zero_value (apply_all zero_value (new_last_known_good stale_after) evs) key now
        ≡ summary stale_after zero_value (history key [] evs) now
  unfolding find new_last_known_good lookup entry_of
  find-eq-summary stale_after evs key now = rw (
    stale_after-apply_all,
    lookup-apply_all (new_last_known_good stale_after) key [] evs refl,
    result-entry_of,
  )
