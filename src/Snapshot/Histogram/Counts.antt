-- ===== src/Snapshot/Histogram/Counts.antt =====
-- The histogram against the list of the observed durations.
use prometheus_exporter_fram.Prelude.{
  ℕ, ◌+◌, ◌≤◌, ◌%◌, ◌^◌, ◌≡◌, refl, ap, ◌∙◌, Bool, true, false, some, none, List, [], ◌∷◌, arith,
  Eq, ◌==◌, ==_refl, ==_iff, length, any, add_uint64, if◌then◌else◌, Bool-cases, inl, inr,
}
use prometheus_exporter_fram.Clock.{Duration}
use prometheus_exporter_fram.Assoc.{
  Assoc, has, lookup, insert, lookup-insert, Distinct, insert-Distinct,
}
use prometheus_exporter_fram.Snapshot.Histogram.{
  FloatOps, Histogram, or_zero, zero_buckets, bump, copy, clone, bump_all, new_histogram, observe,
}

module _ {F : Type 0} ⦃e : Eq F⦄ where
  abbrev pub elem : F → List F → Bool
  elem b bs = any (λ c. c == b) bs

  -- no bound is listed twice
  abbrev pub Unique : List F → Type 0
  Unique [] = Unit
  Unique (b ∷ bs) = (elem b bs ≡ false) × Unique bs

  lookup-zero_buckets :
      (bs : List F) (m : Assoc F ℕ) (b : F)
      → lookup b (zero_buckets bs m) ≡ (if elem b bs then some 0 else lookup b m)
  unfolding zero_buckets
  lookup-zero_buckets [] m b = refl
  lookup-zero_buckets (c ∷ bs) m b =
      ground (arith, lookup-zero_buckets bs (insert c 0 m) b, lookup-insert c b 0 m)

  lookup-bump :
      (c b : F) (m : Assoc F ℕ)
      → lookup b (bump c m)
        ≡ (if c == b then some (add_uint64 (or_zero (lookup c m)) 1) else lookup b m)
  unfolding bump
  lookup-bump c b m = lookup-insert c b (add_uint64 (or_zero (lookup c m)) 1) m

module _ {F : Type 0} ⦃e : Eq F⦄ (ops : FloatOps F) where
  -- how many of the durations are at most the bound
  abbrev pub at_most : F → List Duration → ℕ
  at_most b [] = 0
  at_most b (d ∷ ds) = (if ops.le (ops.seconds d) b then 1 else 0) + at_most b ds

  lookup-bump_all :
      (s : F) (bs : List F) (m : Assoc F ℕ) (b : F)
      → Unique bs
      → lookup b (bump_all ops s bs m) ≡ (
          if elem b bs
          then (if ops.le s b then some (add_uint64 (or_zero (lookup b m)) 1) else lookup b m)
          else lookup b m)
  unfolding bump_all
  lookup-bump_all s [] m b u = refl
  lookup-bump_all s (c ∷ bs) m b u = elim (Bool-cases (c == b)) [
    | inl p ↦ rw p (
        ground (
          arith,
          lookup-bump_all s bs (if ops.le s c then bump c m else m) b u.1,
          lookup-bump c b m,
          (==_iff c b).0 p,
          u.0,
        ))
    | inr p ↦ rw p (
        ground (
          arith,
          lookup-bump_all s bs (if ops.le s c then bump c m else m) b u.1,
          lookup-bump c b m,
          p,
        ))
  ]

  at_most_mono :
      ((x y z : F) → ops.le x y ≡ true → ops.le y z ≡ true → ops.le x z ≡ true)
      → (b c : F) (ds : List Duration) → ops.le b c ≡ true
      → at_most b ds ≤ at_most c ds
  at_most_mono trans b c [] h = omega arith
  at_most_mono trans b c (d ∷ ds) h =
      ground (arith, at_most_mono trans b c ds h, trans (ops.seconds d) b c)

  at_most-le-length : (b : F) (ds : List Duration) → at_most b ds ≤ length ds
  at_most-le-length b [] = omega arith
  at_most-le-length b (d ∷ ds) = ground (arith, at_most-le-length b ds)

module _ {F : Type 0} ⦃e : Eq F⦄ where
  zero_buckets-Distinct : (bs : List F) (m : Assoc F ℕ) → Distinct m → Distinct (zero_buckets bs m)
  unfolding zero_buckets
  zero_buckets-Distinct [] m d = d
  zero_buckets-Distinct (b ∷ bs) m d =
      zero_buckets-Distinct bs (insert b 0 m) (insert-Distinct b 0 m d)

  bump-Distinct : (b : F) (m : Assoc F ℕ) → Distinct m → Distinct (bump b m)
  unfolding bump
  bump-Distinct b m d = insert-Distinct b (add_uint64 (or_zero (lookup b m)) 1) m d

  lookup-copy :
      (m n : Assoc F ℕ) (b : F)
      → Distinct m
      → lookup b (copy m n) ≡ (if has (lookup b m) then lookup b m else lookup b n)
  unfolding copy lookup
  lookup-copy [] n b d = refl
  lookup-copy ((c, k) ∷ m) n b d =
      ground (arith, lookup-copy m (insert c k n) b d.1, lookup-insert c b k n, (==_iff c b).0, d.0)

  -- A clone has the same buckets.
  lookup-clone :
      (h : Histogram F) (b : F)
      → Distinct h.buckets
      → lookup b (clone h).buckets ≡ lookup b h.buckets
  unfolding clone lookup
  lookup-clone h b d = rw (lookup-copy h.buckets [] b d) (ground arith)

module _ {F : Type 0} ⦃e : Eq F⦄ (ops : FloatOps F) where
  bump_all-Distinct :
      (s : F) (bs : List F) (m : Assoc F ℕ) → Distinct m → Distinct (bump_all ops s bs m)
  unfolding bump_all
  bump_all-Distinct s [] m d = d
  bump_all-Distinct s (b ∷ bs) m d =
      bump_all-Distinct s bs (if ops.le s b then bump b m else m)
        (ground (arith, bump-Distinct b m d))

module _ {F : Type 0} ⦃e : Eq F⦄ (ops : FloatOps F) (bs : List F) where
  -- The histogram after the durations, the newest of which stands first.
  unfoldable pub observed : List Duration → Histogram F
  observed [] = new_histogram ops bs
  observed (d ∷ ds) = observe ops bs (observed ds) d

  unfoldable pub sum_of : List Duration → F
  sum_of [] = ops.zero
  sum_of (d ∷ ds) = ops.plus (sum_of ds) (ops.seconds d)

  -- What a histogram tells of the durations.
  pub record Tells (h : Histogram F) (ds : List Duration) : Type 0 where
    pub count : h.count ≡ length ds % 2 ^ 64
    pub sum : h.sum ≡ sum_of ds
    pub buckets :
        (b : F)
        → lookup b h.buckets ≡ (
            if ops.inf == b
            then some (length ds % 2 ^ 64)
            else if elem b bs
            then some (at_most ops b ds % 2 ^ 64)
            else none)

  observed-Distinct : (ds : List Duration) → Distinct (observed ds).buckets
  unfolding observed new_histogram observe
  observed-Distinct [] =
      insert-Distinct ops.inf 0 (zero_buckets bs []) (zero_buckets-Distinct bs [] tt)
  observed-Distinct (d ∷ ds) =
      bump-Distinct ops.inf (bump_all ops (ops.seconds d) bs (observed ds).buckets)
        (bump_all-Distinct ops (ops.seconds d) bs (observed ds).buckets (observed-Distinct ds))

  module _ (unique : Unique bs) (finite : elem ops.inf bs ≡ false) where
    inf_elem : (b : F) → (ops.inf == b) ≡ true → elem b bs ≡ false
    inf_elem b p = cc (finite, ap (λ x. elem x bs) ((==_iff ops.inf b).0 p))

    new-Tells : Tells (new_histogram ops bs) []
    unfolding new_histogram sum_of lookup
    new-Tells = record {
      count = omega arith;
      sum = refl;
      buckets = λ b.
          ground
            (arith, lookup-insert ops.inf b 0 (zero_buckets bs []), lookup-zero_buckets bs [] b);
    }

    observe-Tells :
        (h : Histogram F) (d : Duration) (ds : List Duration)
        → Tells h ds
        → Tells (observe ops bs h d) (d ∷ ds)
    unfolding observe sum_of
    observe-Tells h d ds t = record {
      count = omega (arith, t.count);
      sum = ap (λ x. ops.plus x (ops.seconds d)) t.sum;
      buckets = λ b. ground (
        arith,
        lookup-bump ops.inf b (bump_all ops (ops.seconds d) bs h.buckets),
        lookup-bump_all ops (ops.seconds d) bs h.buckets ops.inf unique,
        lookup-bump_all ops (ops.seconds d) bs h.buckets b unique,
        finite,
        inf_elem b,
        t.buckets ops.inf,
        t.buckets b,
        ==_refl ops.inf,
      );
    }

    observed-Tells : (ds : List Duration) → Tells (observed ds) ds
    unfolding observed
    observed-Tells [] = new-Tells
    observed-Tells (d ∷ ds) = observe-Tells (observed ds) d ds (observed-Tells ds)

    -- With bounds that are listed once and are not the infinite one: after any durations the clone
    -- that a scrape exports has their number as its count and in the infinite bucket, their sum, in
    -- the bucket of each bound the number of durations that are at most that bound, and no other
    -- bucket; each number is modulo 2 ^ 64.
    pub clone-observed-Tells : (ds : List Duration) → Tells (clone (observed ds)) ds
    clone-observed-Tells ds =
        let t = observed-Tells ds in
        record {
          count = unfold clone in t.count;
          sum = unfold clone in t.sum;
          buckets = λ b. lookup-clone (observed ds) b (observed-Distinct ds) ∙ t.buckets b;
        }
