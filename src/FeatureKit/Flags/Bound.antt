-- ===== src/FeatureKit/Flags/Bound.antt =====
-- Flags are registered in order, unless one is not bound.
use prometheus_exporter_fram.Prelude.{
  Option, none, some, List, [], ◌∷◌, ◌++◌, Result, ok, err, ◌≡◌, refl, append-nil, append_assoc,
  Option-cases, inl, inr, sym,
}
use prometheus_exporter_fram.Text.{Text}
use prometheus_exporter_fram.FeatureKit.Flags.{
  Flag, FlagSpec, flag_of, full_name, register_flag_specs,
}

module _ {C B : Type 0} (feature_name : Text) where
  -- The flags of the specs up to one that is not bound, and that one.
  unfoldable pub bound_flags : List (FlagSpec C B) → List (Flag C B)
  bound_flags [] = []
  bound_flags (spec ∷ specs) = elim spec.bind [
    | none ↦ []
    | some bind ↦ flag_of feature_name spec bind ∷ bound_flags specs
  ]

  unfoldable pub unbound : List (FlagSpec C B) → Option Text
  unbound [] = none
  unbound (spec ∷ specs) = elim spec.bind [
    | none ↦ some (full_name feature_name spec.name)
    | some bind ↦ unbound specs
  ]

  abbrev pub outcome : List (Flag C B) → Option Text → Result Text (List (Flag C B))
  outcome flags none = ok flags
  outcome flags (some name) = err name

  pub register_flag_specs_lem :
      (app : List (Flag C B)) (specs : List (FlagSpec C B))
      → register_flag_specs app feature_name specs
        ≡ outcome (app ++ bound_flags specs) (unbound specs)
  unfolding register_flag_specs bound_flags unbound
  register_flag_specs_lem app [] = rw (append-nil app) refl
  register_flag_specs_lem app (spec ∷ specs) = elim (Option-cases spec.bind) [
    | inl h ↦ rw (h) refl
    | inr (bind, h) ↦
        rw (h, sym (append_assoc app (flag_of feature_name spec bind ∷ []) (bound_flags specs)))
          (register_flag_specs_lem (app ++ flag_of feature_name spec bind ∷ []) specs)
  ]
