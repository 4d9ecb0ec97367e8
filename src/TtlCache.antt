-- ===== src/TtlCache.antt =====
-- exporter/featurekit/ttl_cache.go: `TTLCache`, a thread-safe cache whose entries expire.
-- A method takes the pointer (`none` is `nil`) and the reading of the clock, if it reads one, and
-- returns the pointer with its result. `Get` is two critical sections, `read` and `expire`; `get`
-- runs them with nothing in between, and Races.antt puts other calls there.
pub mod View
pub mod Sweep
pub mod Races
pub mod Accounts
use prometheus_exporter_fram.Prelude.{
  ℕ, ◌+◌, Bool, true, false, not, Option, none, some, List, [], ◌∷◌, length, Eq, ltb, nat_beq,
  add_uint64, if◌then◌else◌,
}
use prometheus_exporter_fram.Clock.{Time, Duration, before, add, is_positive}
use prometheus_exporter_fram.Assoc.{Assoc, has, lookup, erase, insert}

pub record Item {ℓ} (V : Type ℓ) : Type ℓ where
  pub value : V
  pub expires_at : Time

pub record TtlCache {ℓ} (K V : Type ℓ) : Type ℓ where
  pub ttl : Duration
  pub items : Assoc K (Item V)
  pub hits : ℕ
  pub misses : ℕ
  pub sets : ℕ
  pub deletes : ℕ
  pub expired : ℕ
  pub clears : ℕ

pub record Stats : Type 0 where
  pub entries : ℕ
  pub hits : ℕ
  pub misses : ℕ
  pub sets : ℕ
  pub deletes : ℕ
  pub expired : ℕ
  pub clears : ℕ

unfoldable pub new_ttl_cache {ℓ} : {K V : Type ℓ} → Duration → TtlCache K V
new_ttl_cache ttl = record {
  ttl = ttl;
  items = [];
  hits = 0;
  misses = 0;
  sets = 0;
  deletes = 0;
  expired = 0;
  clears = 0;
}

-- How the first section of `Get` ends: with the answer of the call, or with the expiry time of the
-- dead entry that it saw.
pub data Seen {ℓ} (V : Type ℓ) : Type ℓ where
  answer : Option V → Seen V
  dead : Time → Seen V

module _ {ℓ} {K V : Type ℓ} where
  unfoldable pub miss : TtlCache K V → TtlCache K V
  miss c = record c { misses = add_uint64 c.misses 1 }

  unfoldable pub read_item : TtlCache K V → Option (Item V) → Time → TtlCache K V × Seen V
  unfolding miss
  read_item c none now = (miss c, answer none)
  read_item c (some item) now =
      if before now item.expires_at
      then (record c { hits = add_uint64 c.hits 1 }, answer (some item.value))
      else (c, dead item.expires_at)

abbrev pub expires_at_is {ℓ} : {V : Type ℓ} → Time → Option (Item V) → Bool
expires_at_is at none = false
expires_at_is at (some current) = nat_beq current.expires_at at

module _ {ℓ} {K V : Type ℓ} ⦃e : Eq K⦄ where
  -- the section of `Get` under the read lock
  unfoldable pub read : TtlCache K V → K → Time → TtlCache K V × Seen V
  unfolding read_item
  read c key now = read_item c (lookup key c.items) now

  -- the section of `Get` under the write lock
  unfoldable pub expire : TtlCache K V → K → Time → TtlCache K V
  expire c key at =
      if expires_at_is at (lookup key c.items)
      then record c { items = erase key c.items; expired = add_uint64 c.expired 1 }
      else c

  unfoldable pub finish : TtlCache K V × Seen V → K → TtlCache K V × Option V
  unfolding expire miss
  finish (c, answer v) key = (c, v)
  finish (c, dead at) key = (miss (expire c key at), none)

  -- `Get` on a cache that is not `nil`
  unfoldable pub fetch : TtlCache K V → K → Time → TtlCache K V × Option V
  unfolding read finish
  fetch c key now = finish (read c key now) key

  -- The zero value with `false` is `none`.
  unfoldable pub get : Option (TtlCache K V) → K → Time → Option (TtlCache K V) × Option V
  unfolding fetch
  get none key now = (none, none)
  get (some c) key now = let (c', v) = fetch c key now in (some c', v)

  -- `SetWithTTL` on a cache that is not `nil`
  unfoldable pub store : TtlCache K V → K → V → Duration → Time → TtlCache K V
  store c key value ttl now =
      if is_positive ttl
      then record c {
        items = insert key (record { value = value; expires_at = add now ttl }) c.items;
        sets = add_uint64 c.sets 1;
      }
      else c

  unfoldable pub set_with_ttl :
      Option (TtlCache K V) → K → V → Duration → Time → Option (TtlCache K V)
  unfolding store
  set_with_ttl none key value ttl now = none
  set_with_ttl (some c) key value ttl now = some (store c key value ttl now)

  unfoldable pub set : Option (TtlCache K V) → K → V → Time → Option (TtlCache K V)
  unfolding set_with_ttl
  set none key value now = none
  set (some c) key value now = set_with_ttl (some c) key value c.ttl now

  -- `Delete` on a cache that is not `nil`
  unfoldable pub drop_key : TtlCache K V → K → TtlCache K V
  drop_key c key =
      if has (lookup key c.items)
      then record c { items = erase key c.items; deletes = add_uint64 c.deletes 1 }
      else c

  unfoldable pub delete : Option (TtlCache K V) → K → Option (TtlCache K V)
  unfolding drop_key
  delete none key = none
  delete (some c) key = some (drop_key c key)

  -- `Clear` on a cache that is not `nil`
  unfoldable pub wipe : TtlCache K V → TtlCache K V
  wipe c = record c { items = []; clears = add_uint64 c.clears 1 }

  unfoldable pub clear : Option (TtlCache K V) → Option (TtlCache K V)
  unfolding wipe
  clear none = none
  clear (some c) = some (wipe c)

  -- The `range` of `Len` over the entries, with the map that it deletes from and its count.
  unfoldable pub sweep : Time → Assoc K (Item V) → Assoc K (Item V) → ℕ → Assoc K (Item V) × ℕ
  sweep now [] m n = (m, n)
  sweep now ((key, item) ∷ rest) m n =
      if not (before now item.expires_at)
      then sweep now rest (erase key m) (n + 1)
      else sweep now rest m n

  -- `Len` on a cache that is not `nil`: the swept cache and its size
  unfoldable pub measure : TtlCache K V → Time → TtlCache K V × ℕ
  measure c now =
      let (m, n) = sweep now c.items c.items 0 in
      (
        record c { items = m; expired = if ltb 0 n then add_uint64 c.expired n else c.expired },
        length m,
      )

  unfoldable pub len : Option (TtlCache K V) → Time → Option (TtlCache K V) × ℕ
  unfolding measure
  len none now = (none, 0)
  len (some c) now = let (c', n) = measure c now in (some c', n)

  unfoldable pub stats : Option (TtlCache K V) → Time → Option (TtlCache K V) × Stats
  unfolding measure
  stats none now = (
    none,
    record { entries = 0; hits = 0; misses = 0; sets = 0; deletes = 0; expired = 0; clears = 0 },
  )
  stats (some c) now =
      let (c', n) = measure c now in
      (
        some c',
        record {
          entries = n;
          hits = c'.hits;
          misses = c'.misses;
          sets = c'.sets;
          deletes = c'.deletes;
          expired = c'.expired;
          clears = c'.clears;
        },
      )
