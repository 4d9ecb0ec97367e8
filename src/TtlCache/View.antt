-- ===== src/TtlCache/View.antt =====
-- What a client of the cache sees: the entries that have not expired at the time of the look.
use prometheus_exporter_fram.Prelude.{
  ◌≤◌, ◌≡◌, refl, Option, none, some, arith, Eq, ◌==◌, if◌then◌else◌,
}
use prometheus_exporter_fram.Clock.{Time, Duration, before, add, is_positive}
use prometheus_exporter_fram.Assoc.{lookup, lookup-erase, lookup-insert}
use prometheus_exporter_fram.TtlCache.{TtlCache, Item, expire, fetch, store, drop_key, wipe}

module _ {ℓ} {V : Type ℓ} where
  abbrev pub live : Time → Option (Item V) → Option V
  live now none = none
  live now (some item) = if before now item.expires_at then some item.value else none

module _ {ℓ} {K V : Type ℓ} ⦃e : Eq K⦄ where
  -- The abstract cache: a partial function that depends on the time.
  unfoldable pub view : TtlCache K V → Time → K → Option V
  view c now key = live now (lookup key c.items)

  -- The answer of `Get` is the view of the key, whatever else it does.
  pub fetch-eq-view :
      (c : TtlCache K V) (key : K) (now : Time) → (fetch c key now).1 ≡ view c now key
  unfolding fetch view
  fetch-eq-view c key now = ground arith

  -- A deletion by the second section of `Get` changes no view from the expiry time on.
  pub view-expire :
      (c : TtlCache K V) (key : K) (at now : Time) (j : K)
      → at ≤ now
      → view (expire c key at) now j ≡ view c now j
  unfolding expire view
  view-expire c key at now j h = ground (arith, lookup-erase key j c.items, e.beq_iff key j)

  -- `Get` changes no view at the time of its reading or later.
  pub view-fetch :
      (c : TtlCache K V) (key : K) (now later : Time) (j : K)
      → now ≤ later
      → view (fetch c key now).0 later j ≡ view c later j
  unfolding fetch view
  view-fetch c key now later j h = ground (arith, lookup-erase key j c.items, e.beq_iff key j)

  -- `SetWithTTL` with a positive duration gives its key the value until the duration is over, and
  -- leaves the other keys; with any other duration it does nothing.
  pub view-store :
      (c : TtlCache K V) (key : K) (value : V) (ttl : Duration) (now later : Time) (j : K)
      → view (store c key value ttl now) later j ≡ (
          if is_positive ttl
          then (if key == j
              then (if before later (add now ttl) then some value else none)
              else view c later j)
          else view c later j)
  unfolding store view
  view-store c key value ttl now later j =
      ground
        (arith, lookup-insert key j (record { value = value; expires_at = add now ttl }) c.items)

  pub view-drop_key :
      (c : TtlCache K V) (key : K) (now : Time) (j : K)
      → view (drop_key c key) now j ≡ (if key == j then none else view c now j)
  unfolding drop_key view
  view-drop_key c key now j = ground (arith, lookup-erase key j c.items, e.beq_iff key j)

  pub view-wipe : (c : TtlCache K V) (now : Time) (j : K) → view (wipe c) now j ≡ none
  unfolding wipe view lookup
  view-wipe c now j = refl
