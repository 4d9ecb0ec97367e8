-- ===== src/FeatureKit/Framework.antt =====
-- The generic feature as a feature of the framework: the methods of exporter/featurekit/feature.go
-- that internal/app calls. `type_name` is what `%T` prints.
use prometheus_exporter_fram.Prelude.{Option, none, some, List, [], ◌∷◌, ◌≡◌, Eq, arith, ◌⊎◌}
use prometheus_exporter_fram.Text.{Text}
use prometheus_exporter_fram.Registration.{Registry}
use prometheus_exporter_fram.App.Names.{non_empty, default_exporter_name}
use prometheus_exporter_fram.App.Startup.{FeatureOps, new_registry_context}
use prometheus_exporter_fram.App.Startup as Startup
use prometheus_exporter_fram.App.Startup.Held.{Account, Kept, new_registry_context-Kept}
use prometheus_exporter_fram.FeatureKit.{
  Feature, FeatureError, register_collectors, runtime_config, FeatureContext,
}
use prometheus_exporter_fram.FeatureKit.Registered.{OneOrNone, register_feature-OneOrNone}
use prometheus_exporter_fram.FeatureKit.Snapshot.{Framework}
use prometheus_exporter_fram.App.Injected.{SmokeSpec}

one-Account :
    {K E R Ctx : Type 0} ⦃eq : Eq K⦄ (reg : Registry R K E) (background : Ctx) (ctx : Ctx)
    (r₀ r : R) (started : List (K × Ctx)) (error : Option (FeatureError E))
    → OneOrNone reg background r₀ (some ctx) (r, started, error)
    → Account reg.holds ctx r₀ (r, started)
one-Account reg background ctx r₀ r [] error h = (h, tt)
one-Account reg background ctx r₀ r ((c, x) ∷ []) none (p, h) = (λ k. ground (arith, h k), (p, tt))
one-Account reg background ctx r₀ r ((c, x) ∷ []) (some e) h = absurd (h)
one-Account reg background ctx r₀ r (a ∷ b ∷ more) error h = absurd (h)

-- the context as the feature sees it
abbrev pub given :
    {Ctx L : Type 0} → Startup.FeatureContext Ctx L → FeatureContext Ctx (Framework L)
given c = record {
  context = some c.context;
  framework = record { namespace = c.namespace; logger = some c.logger };
}

-- `SmokeSpec`, from the functions of the spec
unfoldable pub smoke_spec :
    {C N K X E : Type 0} → Option (Text → C → SmokeSpec) → SmokeSpec → Feature C N K X E → SmokeSpec
smoke_spec none smoke f = smoke
smoke_spec (some smoke_func) smoke f = smoke_func f.feature_name f.config

module _ {C N K E R Ctx L : Type 0} ⦃eq : Eq K⦄ (reg : Registry R K E) (background : Ctx)
    (error_text : E → Text) (type_name : Text) where
  -- the methods of a `Feature`
  unfoldable pub feature_ops : FeatureOps (Feature C N K (Framework L) E) Ctx L R K (FeatureError E)
  unfolding register_collectors runtime_config
  feature_ops = record {
    feature_name = λ f. f.feature_name;
    type_name = λ f. type_name;
    register_collectors = λ f c r. register_collectors reg background f (given c) r;
    runtime_config = runtime_config error_text;
  }

  -- `NewRegistryContext` of generic features makes no registry and starts nothing, or the registry
  -- holds the collectors that were started, each with the context, and those that it had at first,
  -- also where it returns the error of a feature.
  pub new_registry_context-features :
      (with_feature : L → Text → L) (base : Text → R) (ctx : Ctx) (logger : L) (namespace : Text)
      (features : List (Option (Feature C N K (Framework L) E)))
      → (let x = new_registry_context feature_ops with_feature base ctx logger namespace features in
          ((x.registry ≡ none) × (x.started ≡ []))
          ⊎ Kept reg.holds ctx (base (non_empty namespace default_exporter_name)) x)
  unfolding feature_ops
  new_registry_context-features with_feature base ctx logger namespace features =
      new_registry_context-Kept feature_ops with_feature reg.holds
        (λ f c r.
          let p = register_collectors reg background f (given c) r in
          one-Account reg background c.context r p.1 p.2 p.3
            (register_feature-OneOrNone reg background f (given c) r))
        base ctx logger namespace features
