-- ===== src/Snapshot/Histogram.antt =====
-- `collectionDurationHistogram`: the count, the sum and the cumulative buckets of the durations of
-- the collections. Floats are a parameter: `F` with the operations that the code applies to it, and
-- `def_buckets` stands for `prometheus.DefBuckets`.
pub mod Counts
use prometheus_exporter_fram.Prelude.{
  ℕ, ℤ, Bool, true, false, Option, none, some, List, [], ◌∷◌, Eq, add_uint64, if◌then◌else◌,
}
use prometheus_exporter_fram.Clock.{Duration}
use prometheus_exporter_fram.Assoc.{Assoc, lookup, insert}

-- `float64`: `+`, `<=`, `/`, `math.Inf(1)`, the conversion of an integer and `Duration.Seconds`
pub record FloatOps (F : Type 0) : Type 0 where
  pub zero : F
  pub plus : F → F → F
  pub le : F → F → Bool
  pub inf : F
  pub seconds : Duration → F
  pub div : F → F → F
  pub of_int : ℤ → F

pub record Histogram (F : Type 0) : Type 0 where
  pub count : ℕ
  pub sum : F
  pub buckets : Assoc F ℕ

-- a missing key of a `map[float64]uint64` reads as 0
abbrev pub or_zero : Option ℕ → ℕ
or_zero none = 0
or_zero (some n) = n

module _ {F : Type 0} ⦃e : Eq F⦄ where
  -- the loop of `newCollectionDurationHistogram`
  unfoldable pub zero_buckets : List F → Assoc F ℕ → Assoc F ℕ
  zero_buckets [] m = m
  zero_buckets (bound ∷ bounds) m = zero_buckets bounds (insert bound 0 m)

  -- `m[bound]++`
  unfoldable pub bump : F → Assoc F ℕ → Assoc F ℕ
  bump bound m = insert bound (add_uint64 (or_zero (lookup bound m)) 1) m

  -- the loop of `clone`
  unfoldable pub copy : Assoc F ℕ → Assoc F ℕ → Assoc F ℕ
  copy [] m = m
  copy ((bound, n) ∷ rest) m = copy rest (insert bound n m)

  unfoldable pub clone : Histogram F → Histogram F
  unfolding copy
  clone h = record h { buckets = copy h.buckets [] }

module _ {F : Type 0} ⦃e : Eq F⦄ (ops : FloatOps F) where
  -- the loop of `observe`
  unfoldable pub bump_all : F → List F → Assoc F ℕ → Assoc F ℕ
  unfolding bump
  bump_all seconds [] m = m
  bump_all seconds (bound ∷ bounds) m =
      bump_all seconds bounds (if ops.le seconds bound then bump bound m else m)

module _ {F : Type 0} ⦃e : Eq F⦄ (ops : FloatOps F) (def_buckets : List F) where
  unfoldable pub new_histogram : Histogram F
  unfolding zero_buckets
  new_histogram = record {
    count = 0;
    sum = ops.zero;
    buckets = insert ops.inf 0 (zero_buckets def_buckets []);
  }

  unfoldable pub observe : Histogram F → Duration → Histogram F
  unfolding bump bump_all
  observe h duration =
      let seconds = ops.seconds duration in
      record {
        count = add_uint64 h.count 1;
        sum = ops.plus h.sum seconds;
        buckets = bump ops.inf (bump_all ops seconds def_buckets h.buckets);
      }
