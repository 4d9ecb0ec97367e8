-- ===== src/Registration/Functions.antt =====
-- exporter/internal/feature/feature.go: `CollectorFeature`, a feature made of functions, each of which
-- may be `nil`. `X` are the contexts that it is given and `A` kingpin's applications.
use prometheus_exporter_fram.Prelude.{Option, none, some, List, [], Result, ok, err, Eq}
use prometheus_exporter_fram.Text.{Text}
use prometheus_exporter_fram.Report.{Any}
use prometheus_exporter_fram.Registration.{Registry, register_collectors}

pub record CollectorFeature (A X R C E : Type 0) : Type 0 where
  pub name : Text
  pub register_flags_func : Option (A → A)
  pub collectors_func : Option (X → Result E (List (Option C)))
  pub runtime_config_func : Option (List Any)
  pub register_collectors_func : Option (X → R → R × Option E)

module _ {A X R C E : Type 0} where
  -- `RegisterFlags`
  unfoldable pub register_flags : CollectorFeature A X R C E → A → A
  register_flags f app = elim f.register_flags_func [ none ↦ app | some register ↦ register app ]

  -- `RuntimeConfig`
  unfoldable pub runtime_config : CollectorFeature A X R C E → List Any
  runtime_config f = elim f.runtime_config_func [ none ↦ [] | some values ↦ values ]

abbrev pub add_all :
    {R C E : Type 0} ⦃e : Eq C⦄ → Registry R C E → R → Result E (List (Option C)) → R × Option E
add_all reg r (err x) = (r, some x)
add_all reg r (ok collectors) = register_collectors reg r collectors

module _ {X R C E : Type 0} ⦃e : Eq C⦄ (reg : Registry R C E) where
  abbrev pub add_made : Option (X → Result E (List (Option C))) → X → R → R × Option E
  add_made none x r = (r, none)
  add_made (some make) x r = add_all reg r (make x)

  abbrev pub add_own :
      Option (X → R → R × Option E) → Option (X → Result E (List (Option C))) → X → R → R × Option E
  add_own (some own) make x r = own x r
  add_own none make x r = add_made make x r

module _ {A X R C E : Type 0} ⦃e : Eq C⦄ (reg : Registry R C E) where
  -- `RegisterCollectors`
  unfoldable pub feature_register_collectors : CollectorFeature A X R C E → X → R → R × Option E
  unfolding register_collectors
  feature_register_collectors f x r = add_own reg f.register_collectors_func f.collectors_func x r
