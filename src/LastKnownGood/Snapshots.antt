-- ===== src/LastKnownGood/Snapshots.antt =====
-- `Snapshot` and `Len` against `Get`.
use prometheus_exporter_fram.Prelude.{
  ◌≡◌, refl, Option, none, some, [], ◌∷◌, arith, Eq, length, if◌then◌else◌, map,
}
use prometheus_exporter_fram.Clock.{Time, Duration}
use prometheus_exporter_fram.Assoc.{Assoc, has, lookup, Distinct}
use prometheus_exporter_fram.LastKnownGood.{
  entries_of, Entry, Result, LastKnownGood, result, result_or_zero, snapshot, get, len,
}

module _ {ℓ} {K V : Type ℓ} ⦃e : Eq K⦄ where
  lookup-map-result :
      (stale_after : Duration) (m : Assoc K (Entry V)) (zero_value : V) (key : K) (now : Time)
      → lookup key (map (λ entry. (entry.0, result stale_after entry.1 now)) m) ≡ (
          if has (lookup key m)
          then some (result_or_zero zero_value stale_after (lookup key m) now)
          else none)
  unfolding lookup result_or_zero
  lookup-map-result stale_after [] zero_value key now = refl
  lookup-map-result stale_after ((k, v) ∷ m) zero_value key now =
      ground (arith, lookup-map-result stale_after m zero_value key now)

  map-result-Distinct :
      (stale_after : Duration) (m : Assoc K (Entry V)) (now : Time)
      → Distinct m
      → Distinct (map (λ entry. (entry.0, result stale_after entry.1 now)) m)
  map-result-Distinct stale_after [] now d = tt
  map-result-Distinct stale_after ((k, v) ∷ m) now d = (
    rw (lookup-map-result stale_after m v.value k now, d.0),
    map-result-Distinct stale_after m now d.1,
  )

  length-map-result :
      (stale_after : Duration) (m : Assoc K (Entry V)) (now : Time)
      → length {A = K × Result V} (map (λ entry. (entry.0, result stale_after entry.1 now)) m)
        ≡ length m
  length-map-result stale_after [] now = refl
  length-map-result stale_after (x ∷ m) now = omega (arith, length-map-result stale_after m now)

  -- `Snapshot` lists each known key once, as often as `Len` says, with what `Get` returns for it at
  -- the same time, and no other key.
  pub snapshot-get :
      (zero_value : V) (l : Option (LastKnownGood K V)) (now : Time)
      → Distinct (entries_of l)
      → ((key : K)
          → lookup key (snapshot l now)
            ≡ (if has (lookup key (entries_of l)) then some (get zero_value l key now) else none))
        × Distinct (snapshot l now)
        × (length (snapshot l now) ≡ len l)
  unfolding snapshot get len lookup
  snapshot-get zero_value none now d = (λ key. refl, tt, refl)
  snapshot-get zero_value (some l) now d = (
    λ key. lookup-map-result l.stale_after l.entries zero_value key now,
    map-result-Distinct l.stale_after l.entries now d,
    length-map-result l.stale_after l.entries now,
  )
