-- ===== src/FeatureKit/Registered.antt =====
-- What a feature's registration leaves behind.
use prometheus_exporter_fram.Prelude.{
  ◌||◌, Option, none, some, List, [], ◌∷◌, Result, ok, err, ◌≡◌, refl, Eq, ◌==◌, arith, or_else,
}
use prometheus_exporter_fram.Clock.{Duration}
use prometheus_exporter_fram.Text.{Text}
use prometheus_exporter_fram.Metrics.Values.{normalize_duration}
use prometheus_exporter_fram.Metrics.Descriptors.{MetricPanic}
use prometheus_exporter_fram.Registration.{Registry, register_and_start_collectors}
use prometheus_exporter_fram.Registration.Rollback.{
  register_and_start-Starts, Starts, Failed, present,
}
use prometheus_exporter_fram.FeatureKit.{
  Feature, FeatureError, FeatureContext, prepare_config, run_validate, register_collectors,
  add_collector, with_snapshotter, with_config, wrap, new_snapshotter, collector_context,
}

module _ {K E R Ctx : Type 0} ⦃eq : Eq K⦄ (reg : Registry R K E) (background : Ctx) where
  -- With no collector started, the registry holds what it held, whatever the error; at most one is
  -- started, without an error, with the context or the background one, and it is what the registry
  -- holds more.
  abbrev pub OneOrNone : R → Option Ctx → R × List (K × Ctx) × Option (FeatureError E) → Type 0
  OneOrNone r₀ ctx (r, [], error) = (k : K) → reg.holds r k ≡ reg.holds r₀ k
  OneOrNone r₀ ctx (r, (c, started_with) ∷ [], none) =
      (started_with ≡ or_else ctx background)
      × ((k : K) → reg.holds r k ≡ (c == k || reg.holds r₀ k))
  OneOrNone r₀ ctx (r, (c, started_with) ∷ [], some e) = ⊥
  OneOrNone r₀ ctx (r, a ∷ b ∷ started, error) = ⊥

  -- Of a list of one collector there is none before the one that was refused.
  alone-Failed :
      (r₀ r : R) (c : K) (x : E)
      → Failed reg r₀ (c ∷ []) x r
      → (k : K) → reg.holds r k ≡ reg.holds r₀ k
  alone-Failed r₀ r c e ([], x, after, r', same, held, refused, h) k = ground (arith, h k)
  alone-Failed r₀ r c e (b ∷ [], x, after, r', same, held, refused, h) k = absurd (cc)
  alone-Failed r₀ r c e (b ∷ y ∷ before, x, after, r', same, held, refused, h) k = absurd (cc)

  wrap-OneOrNone :
      (name : Text) (r₀ : R) (ctx : Option Ctx) (c : K) (p : R × List (K × Ctx) × Option E)
      → Starts reg r₀ (c ∷ []) (or_else ctx background) p
      → OneOrNone r₀ ctx (wrap name p)
  wrap-OneOrNone name r₀ ctx c (r, [], none) h = absurd (cc)
  wrap-OneOrNone name r₀ ctx c (r, (k, x) ∷ [], none) h = (cc, λ d. ground (arith, h.1 d))
  wrap-OneOrNone name r₀ ctx c (r, (k, x) ∷ a ∷ more, none) h = absurd (cc)
  wrap-OneOrNone name r₀ ctx c (r, [], some e) h = alone-Failed r₀ r c e h.1
  wrap-OneOrNone name r₀ ctx c (r, k ∷ more, some e) h = absurd (cc)

  add-OneOrNone :
      (name : Text) (r : R) (ctx : Option Ctx) (k : Result MetricPanic (Option K))
      → OneOrNone r ctx (add_collector reg background name ctx r k)
  unfolding present
  add-OneOrNone name r ctx (err p) = λ d. refl
  add-OneOrNone name r ctx (ok none) = λ d. refl
  add-OneOrNone name r ctx (ok (some k)) =
      let p =
        register_and_start_collectors reg background (some (or_else ctx background)) r
          (some k ∷ []) in
      let h =
        register_and_start-Starts reg background (some (or_else ctx background)) r (some k ∷ []) in
      wrap-OneOrNone name r ctx k p h

module _ {C N K X E R Ctx : Type 0} ⦃eq : Eq K⦄ (reg : Registry R K E) (background : Ctx) where
  snapshotter-OneOrNone :
      (f : Feature C N K X E) (x : FeatureContext Ctx X) (r : R)
      (make : Text → X → Option N → Duration → Result MetricPanic (Option K))
      (n : Result E (Option N))
      → OneOrNone reg background r x.context (with_snapshotter reg background f x r make n)
  snapshotter-OneOrNone f x r make (err e) = λ d. refl
  snapshotter-OneOrNone f x r make (ok n) =
      add-OneOrNone reg background f.feature_name r x.context (
        make f.feature_name x.framework n
          (normalize_duration f.refresh_interval f.default_refresh_interval))

  config-OneOrNone :
      (f : Feature C N K X E) (x : FeatureContext Ctx X) (r : R) (config : C)
      (make : Option (Text → X → Option N → Duration → Result MetricPanic (Option K)))
      (error : Option E)
      → OneOrNone reg background r x.context (with_config reg background f x r config make error)
  config-OneOrNone f x r config make (some e) = λ d. refl
  config-OneOrNone f x r config none none = λ d. refl
  config-OneOrNone f x r config (some make) none =
      snapshotter-OneOrNone f x r make
        (new_snapshotter f.functions.new_snapshotter_func x.framework (collector_context f config))

  -- `RegisterCollectors` of a feature: either nothing is started and the registry holds what it
  -- held, or one collector is, without an error, with the given context or the background one, and
  -- the registry holds that collector besides.
  pub register_feature-OneOrNone :
      (f : Feature C N K X E) (x : FeatureContext Ctx X) (r : R)
      → (let p = register_collectors reg background f x r in
          OneOrNone reg background r x.context (p.1, p.2, p.3))
  unfolding register_collectors
  register_feature-OneOrNone f x r =
      let (g, config, error) = prepare_config f in
      config-OneOrNone f x r config f.functions.new_collector_func (elim error [
        | none ↦ run_validate f.functions.validate_config_func config
        | some e ↦ some e
      ])
