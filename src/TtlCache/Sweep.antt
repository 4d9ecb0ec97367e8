-- ===== src/TtlCache/Sweep.antt =====
-- `Len` and `Stats`: the sweep over the entries deletes exactly the expired ones.
use prometheus_exporter_fram.Prelude.{
  ℕ, ◌+◌, ◌-◌, ◌≤◌, ◌≡◌, refl, Bool, true, none, [], ◌∷◌, arith, ltb, add_uint64, if◌then◌else◌, Eq,
  keep, length, All,
}
use prometheus_exporter_fram.Clock.{Time, before}
use prometheus_exporter_fram.Assoc.{Assoc, lookup, erase, Distinct, erase_absent}
use prometheus_exporter_fram.TtlCache.{TtlCache, Item, sweep, measure}
use prometheus_exporter_fram.TtlCache.View.{live, view}

module _ {ℓ} {K V : Type ℓ} where
  abbrev pub is_live : Time → (K × Item V) → Bool
  is_live now entry = before now entry.1.expires_at

  pub length-keep-le :
      (now : Time) (l : Assoc K (Item V)) → length (keep (is_live now) l) ≤ length l
  unfolding keep
  length-keep-le now [] = omega arith
  length-keep-le now (x ∷ l) = ground (arith, length-keep-le now l)

  -- What stays after a sweep is live.
  pub keep-All :
      (now : Time) (l : Assoc K (Item V))
      → All (λ entry. before now entry.1.expires_at ≡ true) (keep (is_live now) l)
  unfolding keep
  keep-All now [] = tt
  keep-All now (x ∷ l) = ground (arith, keep-All now l)

module _ {ℓ} {K V : Type ℓ} ⦃e : Eq K⦄ where
  pub lookup-keep :
      (now : Time) (j : K) (l : Assoc K (Item V))
      → Distinct l
      → (later : Time) → now ≤ later
      → live later (lookup j (keep (is_live now) l)) ≡ live later (lookup j l)
  unfolding lookup keep
  lookup-keep now j [] d later h = refl
  lookup-keep now j ((k, i) ∷ l) d later h =
      ground (arith, lookup-keep now j l d.1 later h, e.beq_iff k j)

  keep_absent :
      (now : Time) (j : K) (l : Assoc K (Item V))
      → lookup j l ≡ none
      → lookup j (keep (is_live now) l) ≡ none
  unfolding lookup keep
  keep_absent now j [] h = refl
  keep_absent now j ((k, i) ∷ l) h = ground (arith, keep_absent now j l)

  pub keep-Distinct :
      (now : Time) (l : Assoc K (Item V)) → Distinct l → Distinct (keep (is_live now) l)
  unfolding keep
  keep-Distinct now [] d = tt
  keep-Distinct now ((k, i) ∷ l) d =
      ground (arith, keep-Distinct now l d.1, keep_absent now k l d.0)

  -- An entry whose key the range does not meet stays in front.
  sweep_cons :
      (now : Time) (k : K) (i : Item V) (l m : Assoc K (Item V)) (n : ℕ)
      → lookup k l ≡ none
      → sweep now l ((k, i) ∷ m) n ≡ ((k, i) ∷ (sweep now l m n).0, (sweep now l m n).1)
  unfolding sweep lookup erase
  sweep_cons now k i [] m n h = refl
  sweep_cons now k i ((j, x) ∷ l) m n h = ground (
    arith,
    sweep_cons now k i l m n,
    sweep_cons now k i l (erase j m) (n + 1),
    e.beq_iff j k,
    e.beq_iff k j,
  )

  -- The loop is a filter, and its count is the number of entries that the filter drops.
  pub sweep-eq-keep :
      (now : Time) (l : Assoc K (Item V)) (n : ℕ)
      → Distinct l
      → sweep now l l n ≡ (keep (is_live now) l, n + (length l - length (keep (is_live now) l)))
  unfolding sweep keep erase
  sweep-eq-keep now [] n d = ground arith
  sweep-eq-keep now ((k, i) ∷ l) n d = ground (
    arith,
    sweep_cons now k i l l n d.0,
    erase_absent k l d.0,
    e.beq_iff k k,
    sweep-eq-keep now l n d.1,
    sweep-eq-keep now l (n + 1) d.1,
    length-keep-le now l,
  )

  -- A `Len` or a `Stats` call leaves exactly the live entries, returns their number, and adds the
  -- number of the others to the count of expired entries.
  pub measure-keep :
      (c : TtlCache K V) (now : Time)
      → Distinct c.items
      → ((measure c now).0.items ≡ keep (is_live now) c.items)
        × ((measure c now).1 ≡ length (keep (is_live now) c.items))
        × ((measure c now).0.expired ≡ (
            if ltb (length (keep (is_live now) c.items)) (length c.items)
            then add_uint64 c.expired (length c.items - length (keep (is_live now) c.items))
            else c.expired))
  unfolding measure
  measure-keep c now d = ground (arith, sweep-eq-keep now c.items 0 d, length-keep-le now c.items)

  -- It changes no view at the time of its reading or later.
  pub view-measure :
      (c : TtlCache K V) (now later : Time) (j : K)
      → Distinct c.items
      → now ≤ later
      → view (measure c now).0 later j ≡ view c later j
  unfolding view
  view-measure c now later j d h = rw (measure-keep c now d).0 (lookup-keep now j c.items d later h)
