-- ===== src/FeatureKit/ConfigFile.antt =====
-- exporter/featurekit/extension.go: `LoadFeatureConfigFile`. `read_file` is `os.ReadFile`, whose
-- contents are `P` and errors `R`; `decode` is the strict YAML decoder, which leaves a target even
-- where it returns an error `Y`.
pub mod Outcomes
use prometheus_exporter_fram.Prelude.{
  Bool, true, false, not, ◌&&◌, Option, none, some, Result, ok, err, if◌then◌else◌,
}
use prometheus_exporter_fram.Text.{Text, is_empty, trim_space}
use prometheus_exporter_fram.App.Names.{non_empty}
use prometheus_exporter_fram.FeatureKit.Extension.{default_config_file}

-- the wrapped errors, with the feature's name and the path
pub data LoadError (R Y : Type 0) : Type 0 where
  read : Text → Text → R → LoadError R Y
  parse : Text → Text → Y → LoadError R Y

-- What the code uses of package `os` and of the decoder: with `errors.Is`, whether an error is
-- `os.ErrNotExist`, and whether one is `io.EOF`, which is the error of an empty document.
pub record FileOps (T P R Y : Type 0) : Type 0 where
  pub read_file : Text → Result R P
  pub is_not_exist : R → Bool
  pub decode : T → P → T × Option Y
  pub is_eof : Y → Bool

-- What it returns, besides the target: the path, whether the file was loaded, and the error.
pub record Loading (T R Y : Type 0) : Type 0 where
  pub target : T
  pub path : Text
  pub loaded : Bool
  pub error : Option (LoadError R Y)

module _ {T P R Y : Type 0} (ops : FileOps T P R Y) where
  abbrev pub after_decode : Text → Text → T × Option Y → Loading T R Y
  after_decode name path (target, none) = record {
    target = target;
    path = path;
    loaded = true;
    error = none;
  }
  after_decode name path (target, some e) =
      if ops.is_eof e
      then record { target = target; path = path; loaded = true; error = none }
      else record { target = target; path = path; loaded = false; error = some (parse name path e) }

  abbrev pub after_read : Text → Text → Bool → T → Result R P → Loading T R Y
  after_read name path required target (err e) =
      if not required && ops.is_not_exist e
      then record { target = target; path = path; loaded = false; error = none }
      else record { target = target; path = path; loaded = false; error = some (read name path e) }
  after_read name path required target (ok contents) =
      after_decode name path (ops.decode target contents)

  -- `LoadFeatureConfigFile`
  unfoldable pub load_feature_config_file : (Text → Text → Text) → Text → Text → T → Loading T R Y
  unfolding default_config_file
  load_feature_config_file join_path feature_name explicit_path target =
      let explicit = trim_space explicit_path in
      let path = non_empty explicit (default_config_file join_path feature_name) in
      after_read feature_name path (not (is_empty explicit)) target (ops.read_file path)
