-- ===== src/FeatureKit/Prepared.antt =====
-- A configuration is prepared once, whatever a feature is asked afterwards.
use prometheus_exporter_fram.Prelude.{Option, none, some, List, [], ◌∷◌, ◌≡◌, refl, Eq}
use prometheus_exporter_fram.Clock.{Duration}
use prometheus_exporter_fram.Text.{Text}
use prometheus_exporter_fram.Registration.{Registry}
use prometheus_exporter_fram.FeatureKit.{
  Feature, FeatureContext, prepare_config, prepared, keep_config, run_prepare, runtime_config,
  register_collectors,
}

-- What happens to a feature: the flags are parsed, it registers its collectors, it is reported.
pub data Call (C X R Ctx : Type 0) : Type 0 where
  parse_flags : C → Duration → Call C X R Ctx
  register : FeatureContext Ctx X → R → Call C X R Ctx
  report : Call C X R Ctx

module _ {C N K X E R Ctx : Type 0} ⦃eq : Eq K⦄ (reg : Registry R K E) (background : Ctx)
    (error_text : E → Text) where
  unfoldable pub after_call : Call C X R Ctx → Feature C N K X E → Feature C N K X E
  after_call (parse_flags config interval) f = record f {
    config = config;
    refresh_interval = interval;
  }
  after_call (register x r) f = (register_collectors reg background f x r).0
  after_call report f = (runtime_config error_text f).0

  unfoldable pub after_calls : List (Call C X R Ctx) → Feature C N K X E → Feature C N K X E
  after_calls [] f = f
  after_calls (call ∷ calls) f = after_calls calls (after_call call f)

  call-prepared :
      (call : Call C X R Ctx) (f : Feature C N K X E) (config : C)
      → f.prepared_config ≡ some config
      → (after_call call f).prepared_config ≡ some config
  unfolding after_call register_collectors runtime_config prepare_config
  call-prepared (parse_flags c i) f config h = h
  call-prepared (register x r) f config h = rw (h, prepared) refl
  call-prepared report f config h = rw (h, prepared) refl

  calls-prepared :
      (calls : List (Call C X R Ctx)) (f : Feature C N K X E) (config : C)
      → f.prepared_config ≡ some config
      → (after_calls calls f).prepared_config ≡ some config
  unfolding after_calls
  calls-prepared [] f config h = h
  calls-prepared (call ∷ calls) f config h =
      calls-prepared calls (after_call call f) config (call-prepared call f config h)

  kept :
      (f : Feature C N K X E) (g : Feature C N K X E) (config : C) (p : C × Option E)
      → keep_config f p ≡ (g, config, none)
      → g.prepared_config ≡ some config
  kept f g config (c, none) h = cc
  kept f g config (c, some e) h = absurd (cc)

  once :
      (f : Feature C N K X E) (g : Feature C N K X E) (config : C) (o : Option C)
      → f.prepared_config ≡ o
      → prepared f o ≡ (g, config, none)
      → g.prepared_config ≡ some config
  once f g config none p h =
      kept f g config (run_prepare f.functions.prepare_config_func f.feature_name f.config) h
  once f g config (some c) p h = cc

  -- Once a configuration has been prepared without an error, it is the one that `prepareConfig`
  -- returns, without an error, after any flags, registrations and reports.
  pub prepare_config-after_calls :
      (calls : List (Call C X R Ctx)) (f g : Feature C N K X E) (config : C)
      → prepare_config f ≡ (g, config, none)
      → prepare_config (after_calls calls g) ≡ (after_calls calls g, config, none)
  unfolding prepare_config
  prepare_config-after_calls calls f g config h =
      let p = once f g config f.prepared_config refl h in rw (calls-prepared calls g config p) refl
