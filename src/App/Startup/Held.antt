-- ===== src/App/Startup/Held.antt =====
-- What the registry holds after the features are registered, for features that keep an account of what
-- they start.
use prometheus_exporter_fram.Prelude.{
  Bool, ◌||◌, Option, none, some, List, [], ◌∷◌, ◌++◌, ◌≡◌, refl, Eq, ◌==◌, any, arith, inl, inr,
  All, ◌⊎◌,
}
use prometheus_exporter_fram.Text.{Text}
use prometheus_exporter_fram.App.Names.{
  NamespaceError, non_empty, default_exporter_name, validate_metric_namespace,
}
use prometheus_exporter_fram.App.Startup.{
  FeatureContext, FeatureOps, Registered, after_feature, feature_context, register_features,
  register_checked, new_registry_context,
}

abbrev pub is_started : {K Ctx : Type 0} ⦃e : Eq K⦄ → K → List (K × Ctx) → Bool
is_started k started = any (λ s. s.0 == k) started

any-append :
    {A : Type 0} (p : A → Bool) (xs ys : List A) → any p (xs ++ ys) ≡ (any p xs || any p ys)
any-append p [] ys = refl
any-append p (x ∷ xs) ys = ground (arith, any-append p xs ys)

-- The collectors that were started are what the registry holds more than another, and each was started
-- with the context.
abbrev pub Account :
    {R K Ctx : Type 0} ⦃e : Eq K⦄ → (R → K → Bool) → Ctx → R → R × List (K × Ctx) → Type 0
Account {R} {K} holds ctx r₀ (r, started) =
    ((k : K) → holds r k ≡ (is_started k started || holds r₀ k)) × All (λ s. s.1 ≡ ctx) started

All-append : {A : Type 0} (P : A → Type 0) (xs ys : List A) → All P xs → All P ys → All P (xs ++ ys)
All-append P [] ys h k = k
All-append P (x ∷ xs) ys (p, h) k = (p, All-append P xs ys h k)

-- There is a registry, with an account since it was made.
abbrev pub Kept :
    {F Ctx R K E : Type 0} ⦃e : Eq K⦄ → (R → K → Bool) → Ctx → R → Registered F Ctx R K E → Type 0
Kept {F} {Ctx} {R} holds ctx r₀ x =
    (r : R) × (x.registry ≡ some r) × Account holds ctx r₀ (r, x.started)

module _ {F Ctx L R K E : Type 0} ⦃eq : Eq K⦄ (ops : FeatureOps F Ctx L R K E)
    (with_feature : L → Text → L) (holds : R → K → Bool)
    (accounts : (f : F) (c : FeatureContext Ctx L) (r : R)
      → (let p = ops.register_collectors f c r in Account holds c.context r (p.1, p.2))) where
  join :
      (ctx : Ctx) (r₀ r₁ r₂ : R) (started more : List (K × Ctx))
      → Account holds ctx r₀ (r₁, started)
      → Account holds ctx r₁ (r₂, more)
      → Account holds ctx r₀ (r₂, started ++ more)
  join ctx r₀ r₁ r₂ started more (h, c) (h', c') = (
    λ k. ground (arith, h k, h' k, any-append (λ (s : K × Ctx). s.0 == k) started more),
    All-append (λ (s : K × Ctx). s.1 ≡ ctx) started more c c',
  )

  after-Kept :
      (ctx : Ctx) (r₀ : R) (f : F) (rest : List (Option F)) (p : F × R × List (K × Ctx) × Option E)
      (next : R → Registered F Ctx R K E)
      → Account holds ctx r₀ (p.1, p.2)
      → ((r : R) → Kept holds ctx r (next r))
      → Kept holds ctx r₀ (after_feature ops with_feature f rest p next)
  after-Kept ctx r₀ f rest (f', r, started, some e) next h later = (r, refl, h)
  after-Kept ctx r₀ f rest (f', r, started, none) next h later =
      let (r', e, h') = later r in (r', e, join ctx r₀ r r' started (next r).started h h')

  features-Kept :
      (ctx : Ctx) (logger : L) (namespace : Text) (features : List (Option F)) (r : R)
      → Kept holds ctx r (register_features ops with_feature ctx logger namespace features r)
  unfolding register_features
  features-Kept ctx logger namespace [] r = (r, refl, (λ k. refl, tt))
  features-Kept ctx logger namespace (none ∷ rest) r = features-Kept ctx logger namespace rest r
  features-Kept ctx logger namespace (some f ∷ rest) r =
      let c = feature_context ops with_feature ctx logger namespace f in
      after-Kept ctx r f rest (ops.register_collectors f c r) _ (accounts f c r)
        (features-Kept ctx logger namespace rest)

  checked-Kept :
      (base : Text → R) (ctx : Ctx) (logger : L) (name : Text) (features : List (Option F))
      (error : Option NamespaceError)
      → (let x = register_checked ops with_feature base ctx logger name features error in
          ((x.registry ≡ none) × (x.started ≡ [])) ⊎ Kept holds ctx (base name) x)
  checked-Kept base ctx logger name features (some e) = inl (refl, refl)
  checked-Kept base ctx logger name features none =
      inr (features-Kept ctx logger name features (base name))

  -- With features that keep an account of what they start: `NewRegistryContext` makes no registry and
  -- starts nothing, or the registry holds the collectors that were started, each with the context, and
  -- those that it had at first, also where it returns an error.
  pub new_registry_context-Kept :
      (base : Text → R) (ctx : Ctx) (logger : L) (namespace : Text) (features : List (Option F))
      → (let x = new_registry_context ops with_feature base ctx logger namespace features in
          ((x.registry ≡ none) × (x.started ≡ []))
          ⊎ Kept holds ctx (base (non_empty namespace default_exporter_name)) x)
  unfolding new_registry_context
  new_registry_context-Kept base ctx logger namespace features =
      let name = non_empty namespace default_exporter_name in
      checked-Kept base ctx logger name features (validate_metric_namespace name)
