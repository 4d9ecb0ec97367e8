-- ===== src/LastKnownGood.antt =====
-- exporter/featurekit/last_known_good.go: the last successful value of each key, with the failed
-- attempts since. A method takes the pointer (`none` is `nil`); `zero_value` is the zero value of
-- the type `V`, which an entry holds before its first success. Each method is one critical section.
pub mod History
pub mod Snapshots
use prometheus_exporter_fram.Prelude.{
  ℕ, Bool, true, false, not, ◌&&◌, Option, none, some, List, [], ◌∷◌, length, Eq, add_uint64, map,
}
use prometheus_exporter_fram.Clock.{Time, Duration, before, add, is_positive}
use prometheus_exporter_fram.Assoc.{Assoc, lookup, erase, insert}

pub record Entry {ℓ} (V : Type ℓ) : Type ℓ where
  pub value : V
  pub available : Bool
  pub last_success : Time
  pub last_attempt : Time
  pub consecutive_failures : ℕ

pub record Result {ℓ} (V : Type ℓ) : Type ℓ where
  pub value : V
  pub available : Bool
  pub stale : Bool
  pub last_success : Time
  pub last_attempt : Time
  pub consecutive_failures : ℕ

pub record LastKnownGood {ℓ} (K V : Type ℓ) : Type ℓ where
  pub stale_after : Duration
  pub entries : Assoc K (Entry V)

abbrev pub entries_of {ℓ} : {K V : Type ℓ} → Option (LastKnownGood K V) → Assoc K (Entry V)
entries_of none = []
entries_of (some l) = l.entries

unfoldable pub new_last_known_good {ℓ} : {K V : Type ℓ} → Duration → LastKnownGood K V
new_last_known_good stale_after = record { stale_after = stale_after; entries = [] }

module _ {ℓ} {V : Type ℓ} where
  abbrev pub is_stale : Duration → Entry V → Time → Bool
  is_stale stale_after entry now =
      entry.available
      && (is_positive stale_after && not (before now (add entry.last_success stale_after)))

  unfoldable pub result : Duration → Entry V → Time → Result V
  result stale_after entry now = record {
    value = entry.value;
    available = entry.available;
    stale = is_stale stale_after entry now;
    last_success = entry.last_success;
    last_attempt = entry.last_attempt;
    consecutive_failures = entry.consecutive_failures;
  }

module _ {ℓ} {V : Type ℓ} (zero_value : V) where
  -- `lastKnownGoodEntry[V]{}`
  abbrev pub zero_entry : Entry V
  zero_entry = record {
    value = zero_value;
    available = false;
    last_success = 0;
    last_attempt = 0;
    consecutive_failures = 0;
  }

  -- `LastKnownGoodResult[V]{}`
  abbrev pub zero_result : Result V
  zero_result = record {
    value = zero_value;
    available = false;
    stale = false;
    last_success = 0;
    last_attempt = 0;
    consecutive_failures = 0;
  }

  abbrev pub entry_or_zero : Option (Entry V) → Entry V
  entry_or_zero none = zero_entry
  entry_or_zero (some entry) = entry

  unfoldable pub result_or_zero : Duration → Option (Entry V) → Time → Result V
  unfolding result
  result_or_zero stale_after none now = zero_result
  result_or_zero stale_after (some entry) now = result stale_after entry now

module _ {ℓ} {K V : Type ℓ} ⦃e : Eq K⦄ where
  -- `Success` on a store that is not `nil`
  unfoldable pub succeed : LastKnownGood K V → K → V → Time → LastKnownGood K V
  succeed l key value now = record l {
    entries =
        insert key
          (record {
            value = value;
            available = true;
            last_success = now;
            last_attempt = now;
            consecutive_failures = 0;
          })
          l.entries;
  }

  unfoldable pub success : Option (LastKnownGood K V) → K → V → Time → Option (LastKnownGood K V)
  unfolding succeed
  success none key value now = none
  success (some l) key value now = some (succeed l key value now)

  -- `Delete` on a store that is not `nil`
  unfoldable pub forget : LastKnownGood K V → K → LastKnownGood K V
  forget l key = record l { entries = erase key l.entries }

  unfoldable pub delete : Option (LastKnownGood K V) → K → Option (LastKnownGood K V)
  unfolding forget
  delete none key = none
  delete (some l) key = some (forget l key)

  unfoldable pub len : Option (LastKnownGood K V) → ℕ
  len none = 0
  len (some l) = length l.entries

  -- `Snapshot` on a store that is not `nil`; the order of a `range` is that of the list.
  unfoldable pub results : LastKnownGood K V → Time → List (K × Result V)
  unfolding result
  results l now = map (λ entry. (entry.0, result l.stale_after entry.1 now)) l.entries

  unfoldable pub snapshot : Option (LastKnownGood K V) → Time → List (K × Result V)
  unfolding results
  snapshot none now = []
  snapshot (some l) now = results l now

module _ {ℓ} {K V : Type ℓ} ⦃e : Eq K⦄ (zero_value : V) where
  -- `Failure` on a store that is not `nil`
  unfoldable pub fail : LastKnownGood K V → K → Time → LastKnownGood K V
  fail l key now =
      let entry = entry_or_zero zero_value (lookup key l.entries) in
      record l {
        entries =
            insert key
              (record entry {
                last_attempt = now;
                consecutive_failures = add_uint64 entry.consecutive_failures 1;
              })
              l.entries;
      }

  unfoldable pub failure : Option (LastKnownGood K V) → K → Time → Option (LastKnownGood K V)
  unfolding fail
  failure none key now = none
  failure (some l) key now = some (fail l key now)

  -- `Get` on a store that is not `nil`
  unfoldable pub find : LastKnownGood K V → K → Time → Result V
  unfolding result_or_zero
  find l key now = result_or_zero zero_value l.stale_after (lookup key l.entries) now

  unfoldable pub get : Option (LastKnownGood K V) → K → Time → Result V
  unfolding find
  get none key now = zero_result zero_value
  get (some l) key now = find l key now
