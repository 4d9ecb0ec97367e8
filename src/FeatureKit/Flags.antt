-- ===== src/FeatureKit/Flags.antt =====
-- The flags that features register: exporter/featurekit/config_flags.go, and `RegisterFlags` of
-- feature.go and extension.go there. An application is the list of its flags, as kingpin's builder
-- calls describe them; `B` is what a flag is bound to. `show_duration` is `Duration.String`.
pub mod Bound
use prometheus_exporter_fram.Prelude.{
  Bool, true, false, not, Option, none, some, List, [], ◌∷◌, ◌++◌, Result, ok, err, ◌>>=◌,
  if◌then◌else◌,
}
use prometheus_exporter_fram.Clock.{Duration}
use prometheus_exporter_fram.Text.{Text, codes, is_empty}
use prometheus_exporter_fram.FeatureKit.Extension.{default_config_file}

-- A flag; `marks` is the action that tells the configuration that it was given.
pub record Flag (C B : Type 0) : Type 0 where
  pub name : Text
  pub help : Text
  pub placeholder : Option Text
  pub default : Option Text
  pub marks : Option (C → C)
  pub bound : B

-- `FeatureConfigFlagSpec`
pub record FlagSpec (C B : Type 0) : Type 0 where
  pub name : Text
  pub help : Text
  pub default : Text
  pub placeholder : Text
  pub mark_set : Option (C → C)
  pub bind : Option B

abbrev pub given : Text → Option Text
given t = if is_empty t then none else some t

abbrev pub full_name : Text → Text → Text
full_name feature_name name = feature_name ++ codes "." ++ name

module _ {C B : Type 0} where
  abbrev pub flag_of : Text → FlagSpec C B → B → Flag C B
  flag_of feature_name spec bind = record {
    name = full_name feature_name spec.name;
    help = spec.help;
    placeholder = given spec.placeholder;
    default = given spec.default;
    marks = spec.mark_set;
    bound = bind;
  }

  -- `RegisterFeatureConfigFlagSpecs`; it panics with the name of a flag that is not bound.
  unfoldable pub register_flag_specs :
      List (Flag C B) → Text → List (FlagSpec C B) → Result Text (List (Flag C B))
  register_flag_specs app feature_name [] = ok app
  register_flag_specs app feature_name (spec ∷ specs) = elim spec.bind [
    | none ↦ err (full_name feature_name spec.name)
    | some bind ↦
        register_flag_specs (app ++ flag_of feature_name spec bind ∷ []) feature_name specs
  ]

  -- the flag of the config file
  abbrev pub file_flag : (Text → Text → Text) → Text → Option B → List (Flag C B)
  file_flag join_path feature_name none = []
  file_flag join_path feature_name (some bind) =
      record {
        name = full_name feature_name (codes "config-file");
        help =
            codes "YAML config file. If unset, "
            ++ default_config_file join_path feature_name
            ++ codes " is used when it exists";
        placeholder = none;
        default = none;
        marks = none;
        bound = bind;
      }
      ∷ []

  abbrev pub run_register :
      Option (List (Flag C B) → Result Text (List (Flag C B)))
      → List (Flag C B)
      → Result Text (List (Flag C B))
  run_register none app = ok app
  run_register (some register) app = register app

  -- `snapshotExtensionRegisterFlags`, with where the config file is bound
  unfoldable pub extension_register_flags :
      (Text → Text → Text)
      → Text
      → Option B
      → List (FlagSpec C B)
      → Option (List (Flag C B) → Result Text (List (Flag C B)))
      → List (Flag C B)
      → Result Text (List (Flag C B))
  unfolding register_flag_specs default_config_file
  extension_register_flags join_path feature_name file specs own app =
      register_flag_specs (app ++ file_flag join_path feature_name file) feature_name specs
      >>= run_register own

  -- `Feature.RegisterFlags`
  unfoldable pub feature_register_flags :
      (Duration → Text)
      → Text
      → Duration
      → B
      → Option (List (Flag C B) → Result Text (List (Flag C B)))
      → List (Flag C B)
      → Result Text (List (Flag C B))
  feature_register_flags show_duration feature_name default_refresh_interval bind own app =
      run_register own (
        app
        ++ record {
          name = feature_name ++ codes ".refresh-interval";
          help = codes "How often exporter refreshes " ++ feature_name ++ codes " data";
          placeholder = none;
          default = some (show_duration default_refresh_interval);
          marks = none;
          bound = bind;
        }
          ∷ [])
