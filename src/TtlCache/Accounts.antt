-- ===== src/TtlCache/Accounts.antt =====
-- The counters of the cache, over any sequence of calls. They are 64 bits wide, so each is told by
-- an exact total, of which it is the remainder; the totals balance with the size of the map.
use prometheus_exporter_fram.Prelude.{
  ℕ, suc, [], ◌∷◌, List, ◌+◌, ◌-◌, ◌≤◌, ◌%◌, ◌^◌, ◌≡◌, none, some, arith, Eq, keep, length,
  if◌then◌else◌,
}
use prometheus_exporter_fram.Clock.{Time, Duration, before, add, is_positive}
use prometheus_exporter_fram.Assoc.{
  has, lookup, insert, Distinct, length-erase, insert-Distinct, erase-Distinct,
}
use prometheus_exporter_fram.TtlCache.{
  new_ttl_cache, TtlCache, read, expire, miss, finish, fetch, store, drop_key, wipe, measure,
}
use prometheus_exporter_fram.TtlCache.Sweep.{is_live, measure-keep, keep-Distinct, length-keep-le}

pub data Call {ℓ} (K V : Type ℓ) : Type ℓ where
  get : K → Time → Call K V
  set_with_ttl : K → V → Duration → Time → Call K V
  delete : K → Call K V
  clear : Call K V
  len : Time → Call K V

pub record Totals : Type 0 where
  pub hits : ℕ
  pub misses : ℕ
  pub sets : ℕ
  pub deletes : ℕ
  pub expired : ℕ
  pub clears : ℕ

-- The counters are the totals modulo 2 ^ 64, and no more entries are there or were removed one by
-- one than were set.
pub record Accounts {ℓ} {K V : Type ℓ} ⦃e : Eq K⦄ (c : TtlCache K V) (g : Totals) : Type ℓ where
  pub hits : c.hits ≡ g.hits % 2 ^ 64
  pub misses : c.misses ≡ g.misses % 2 ^ 64
  pub sets : c.sets ≡ g.sets % 2 ^ 64
  pub deletes : c.deletes ≡ g.deletes % 2 ^ 64
  pub expired : c.expired ≡ g.expired % 2 ^ 64
  pub clears : c.clears ≡ g.clears % 2 ^ 64
  pub balance : length c.items + g.deletes + g.expired ≤ g.sets
  pub distinct : Distinct c.items

abbrev pub no_totals : Totals
no_totals = record { hits = 0; misses = 0; sets = 0; deletes = 0; expired = 0; clears = 0 }

module _ {ℓ} {K V : Type ℓ} ⦃e : Eq K⦄ where
  unfoldable pub apply : TtlCache K V → Call K V → TtlCache K V
  apply c (get key now) = (fetch c key now).0
  apply c (set_with_ttl key value ttl now) = store c key value ttl now
  apply c (delete key) = drop_key c key
  apply c clear = wipe c
  apply c (len now) = (measure c now).0

  -- What a call adds to the totals, told by what it finds.
  unfoldable pub tally : TtlCache K V → Totals → Call K V → Totals
  tally c g (get key now) = elim (lookup key c.items) [
    | none ↦ record g { misses = g.misses + 1 }
    | some item ↦
        if before now item.expires_at
        then record g { hits = g.hits + 1 }
        else record g { misses = g.misses + 1; expired = g.expired + 1 }
  ]
  tally c g (set_with_ttl key value ttl now) =
      if is_positive ttl then record g { sets = g.sets + 1 } else g
  tally c g (delete key) =
      if has (lookup key c.items) then record g { deletes = g.deletes + 1 } else g
  tally c g clear = record g { clears = g.clears + 1 }
  tally c g (len now) = record g {
    expired = g.expired + (length c.items - length (keep (is_live now) c.items));
  }

  module _ {c : TtlCache K V} {g : Totals} (a : Accounts c g) where
    get-Accounts :
        (key : K) (now : Time) → Accounts (apply c (get key now)) (tally c g (get key now))
    unfolding apply tally fetch read finish expire miss
    get-Accounts key now =
        ground (arith, length-erase key c.items a.distinct, erase-Distinct key c.items a.distinct)

    set-Accounts :
        (key : K) (value : V) (ttl : Duration) (now : Time)
        → Accounts
            (apply c (set_with_ttl key value ttl now))
            (tally c g (set_with_ttl key value ttl now))
    unfolding apply tally store insert
    set-Accounts key value ttl now = ground (
      arith,
      length-erase key c.items a.distinct,
      insert-Distinct key (record { value = value; expires_at = add now ttl }) c.items a.distinct,
    )

    delete-Accounts : (key : K) → Accounts (apply c (delete key)) (tally c g (delete key))
    unfolding apply tally drop_key
    delete-Accounts key =
        ground (arith, length-erase key c.items a.distinct, erase-Distinct key c.items a.distinct)

    clear-Accounts : Accounts (apply c clear) (tally c g clear)
    unfolding apply tally wipe
    clear-Accounts = ground arith

    len-Accounts : (now : Time) → Accounts (apply c (len now)) (tally c g (len now))
    unfolding apply tally measure
    len-Accounts now = ground (
      arith,
      measure-keep c now a.distinct,
      keep-Distinct now c.items a.distinct,
      length-keep-le now c.items,
    )

  pub apply-Accounts :
      {c : TtlCache K V} {g : Totals} (call : Call K V)
      → Accounts c g
      → Accounts (apply c call) (tally c g call)
  apply-Accounts (get key now) a = get-Accounts a key now
  apply-Accounts (set_with_ttl key value ttl now) a = set-Accounts a key value ttl now
  apply-Accounts (delete key) a = delete-Accounts a key
  apply-Accounts clear a = clear-Accounts a
  apply-Accounts (len now) a = len-Accounts a now

  unfoldable pub apply_all : TtlCache K V → List (Call K V) → TtlCache K V
  apply_all c [] = c
  apply_all c (call ∷ calls) = apply_all (apply c call) calls

  unfoldable pub tally_all : TtlCache K V → Totals → List (Call K V) → Totals
  tally_all c g [] = g
  tally_all c g (call ∷ calls) = tally_all (apply c call) (tally c g call) calls

  apply_all-Accounts :
      (calls : List (Call K V)) {c : TtlCache K V} {g : Totals}
      → Accounts c g
      → Accounts (apply_all c calls) (tally_all c g calls)
  unfolding apply_all tally_all
  apply_all-Accounts [] a = a
  apply_all-Accounts (call ∷ calls) a = apply_all-Accounts calls (apply-Accounts call a)

  abbrev pub gets : List (Call K V) → ℕ
  gets [] = 0
  gets (get key now ∷ calls) = suc (gets calls)
  gets (set_with_ttl key value ttl now ∷ calls) = gets calls
  gets (delete key ∷ calls) = gets calls
  gets (clear ∷ calls) = gets calls
  gets (len now ∷ calls) = gets calls

  tally-gets :
      (c : TtlCache K V) (g : Totals) (call : Call K V)
      → (tally c g call).hits + (tally c g call).misses ≡ g.hits + g.misses + gets (call ∷ [])
  unfolding tally
  tally-gets c g (get key now) = ground arith
  tally-gets c g _ = ground arith

  tally_all-gets :
      (c : TtlCache K V) (g : Totals) (calls : List (Call K V))
      → (tally_all c g calls).hits + (tally_all c g calls).misses ≡ g.hits + g.misses + gets calls
  unfolding tally_all
  tally_all-gets c g [] = omega arith
  tally_all-gets c g (call ∷ calls) = omega (
    arith,
    tally_all-gets (apply c call) (tally c g call) calls,
    tally-gets c g call,
    gets_cons call calls,
  )
    where
      gets_cons :
          (call : Call K V) (calls : List (Call K V))
          → gets (call ∷ calls) ≡ gets (call ∷ []) + gets calls
      gets_cons (get key now) calls = omega arith
      gets_cons _ calls = omega arith

  new-Accounts : (ttl : Duration) → Accounts (new_ttl_cache {K = K} {V = V} ttl) no_totals
  unfolding new_ttl_cache
  new-Accounts ttl = omega arith

  -- After any calls on a new cache each counter is a total modulo 2 ^ 64, the hits and misses add
  -- up to the `Get` calls, and the entries, the deletions and the expiries together are at most the
  -- sets.
  pub counters_balance :
      (ttl : Duration) (calls : List (Call K V))
      → Accounts
          (apply_all (new_ttl_cache ttl) calls)
          (tally_all (new_ttl_cache ttl) no_totals calls)
        × ((tally_all (new_ttl_cache ttl) no_totals calls).hits
              + (tally_all (new_ttl_cache ttl) no_totals calls).misses
            ≡ gets calls)
  counters_balance ttl calls = (
    apply_all-Accounts calls (new-Accounts ttl),
    omega (arith, tally_all-gets (new_ttl_cache ttl) no_totals calls),
  )
