-- ===== src/Registration.antt =====
-- exporter/internal/feature/feature.go: the registration of collectors. The registry
-- is client_golang's, and is a parameter: `Registry` says what the code relies on, as its
-- documentation has it. A `nil` collector is `none`.
pub mod Rollback
pub mod Functions
use prometheus_exporter_fram.Prelude.{
  Bool, true, false, ◌&&◌, ◌||◌, Option, none, some, List, [], ◌∷◌, ◌++◌, ◌≡◌, Eq, ◌==◌, Result, ok,
  err, map, if◌then◌else◌,
}

-- `R` are the registries, `C` the collectors and `E` the errors. `holds r c` says that `c` is
-- registered in `r`. A collector that describes nothing is unchecked. Two checked collectors are
-- `equal` if they describe the same descriptors.
pub record Registry (R C E : Type 0) ⦃e : Eq C⦄ : Type 0 where
  pub register : R → C → Result E R
  pub unregister : R → C → R
  pub holds : R → C → Bool
  pub checked : C → Bool
  pub equal : C → C → Bool
  pub equal_refl : (c : C) → equal c c ≡ true
  -- `Register` refuses a checked collector that is equal to one that is registered.
  pub register_new :
      (r r' : R) (c d : C)
      → register r c ≡ ok r'
      → (checked c && checked d && equal c d) ≡ true
      → holds r d ≡ false
  -- What it does not refuse, it adds.
  pub holds-register :
      (r r' : R) (c d : C)
      → register r c ≡ ok r'
      → holds r' d ≡ (if c == d then true else holds r d)
  -- `Unregister` removes the collector that is equal; it cannot remove an unchecked one.
  pub holds-unregister :
      (r : R) (c d : C)
      → holds (unregister r c) d
        ≡ (if checked c && checked d && equal c d then false else holds r d)

module _ {R C E : Type 0} ⦃e : Eq C⦄ (reg : Registry R C E) where
  -- the loop that unregisters what was registered
  unfoldable pub roll_back : R → List C → R
  roll_back r [] = r
  roll_back r (c ∷ cs) = roll_back (reg.unregister r c) cs

  -- The registry that is left, and the error with which the function returned or the collectors
  -- that it registered.
  unfoldable pub register_loop : R → List C → List (Option C) → R × Result E (List C)
  unfolding roll_back
  register_loop r registered [] = (r, ok registered)
  register_loop r registered (none ∷ cs) = register_loop r registered cs
  register_loop r registered (some c ∷ cs) = elim (reg.register r c) [
    | ok r' ↦ register_loop r' (registered ++ c ∷ []) cs
    | err x ↦ (roll_back r registered, err x)
  ]

  abbrev pub error_of : R × Result E (List C) → R × Option E
  error_of (r, ok registered) = (r, none)
  error_of (r, err x) = (r, some x)

  -- `RegisterCollectors`
  unfoldable pub register_collectors : R → List (Option C) → R × Option E
  unfolding register_loop
  register_collectors r collectors = error_of (register_loop r [] collectors)

  -- `RegisterAndStartCollectors`, with the calls of `Start` that it makes, in order. A context that
  -- is `nil` becomes `context.Background()`.
  abbrev pub start_all :
      {Ctx : Type 0} → Ctx → Option Ctx → R × Result E (List C) → R × List (C × Ctx) × Option E
  start_all background none (r, ok registered) = (r, map (λ c. (c, background)) registered, none)
  start_all background (some ctx) (r, ok registered) = (r, map (λ c. (c, ctx)) registered, none)
  start_all background ctx (r, err x) = (r, [], some x)

  unfoldable pub register_and_start_collectors :
      {Ctx : Type 0} → Ctx → Option Ctx → R → List (Option C) → R × List (C × Ctx) × Option E
  unfolding register_loop
  register_and_start_collectors background ctx r collectors =
      start_all background ctx (register_loop r [] collectors)
