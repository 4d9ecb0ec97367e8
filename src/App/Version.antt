-- ===== src/App/Version.antt =====
-- exporter/internal/app/version.go: the version, branch and revision that the exporter reports.
-- What the linker and the build information hold are arguments.
pub mod Resolved
use prometheus_exporter_fram.Prelude.{
  ℕ, Bool, true, false, not, ◌&&◌, ◌||◌, Option, none, some, List, [], ◌∷◌, ◌≡◌, ◌≢◌, ◌↔◌, refl, Eq,
  ◌==◌, ==_iff, list_eq, nat_eq, nat_beq, all, arith, any, if◌then◌else◌, Bool-cases, inl, inr,
}
use prometheus_exporter_fram.Text.{Text, codes, is_empty, is_space, trim_space, trim_space_idem}

-- the loop of `firstNonEmpty`
unfoldable pub first_non_empty : List Text → Text
first_non_empty [] = []
first_non_empty (value ∷ values) =
    let rest = first_non_empty values in
    if is_empty (trim_space value) then rest else trim_space value

unfoldable pub normalize_build_version : Text → Text
normalize_build_version value =
    if is_empty (trim_space value) || trim_space value == codes "(devel)"
    then []
    else trim_space value

unfoldable pub normalize_computed_revision : Text → Text
normalize_computed_revision value =
    if is_empty (trim_space value) || trim_space value == codes "unknown"
    then []
    else trim_space value

pub record Metadata : Type 0 where
  pub version : Text
  pub branch : Text
  pub revision : Text

-- the loop of `readBuildInfoMetadata` over the settings, with the branch and revision so far
unfoldable pub read_settings : List (Text × Text) → Text → Text → Text × Text
read_settings [] branch revision = (branch, revision)
read_settings ((key, value) ∷ settings) branch revision =
    read_settings settings (if key == codes "vcs.branch" then value else branch)
      (if key == codes "vcs.revision" then value else revision)

-- `readBuildInfoMetadata`; `none` stands for a binary without build information.
unfoldable pub read_build_info_metadata : Option (Text × List (Text × Text)) → Metadata
unfolding read_settings
read_build_info_metadata none = record { version = []; branch = []; revision = [] }
read_build_info_metadata (some (main_version, settings)) =
    let (branch, revision) = read_settings settings [] [] in
    record { version = main_version; branch = branch; revision = revision }

-- `ResolveVersionMetadata`
unfoldable pub resolve_version_metadata : Metadata → Text → Metadata → Metadata
unfolding first_non_empty normalize_build_version normalize_computed_revision
resolve_version_metadata current computed_revision build = record {
  version =
      first_non_empty (current.version ∷ normalize_build_version build.version ∷ codes "dev" ∷ []);
  branch = first_non_empty (current.branch ∷ trim_space build.branch ∷ codes "dev" ∷ []);
  revision = first_non_empty (
      current.revision
      ∷ normalize_computed_revision build.revision
      ∷ normalize_computed_revision computed_revision
      ∷ codes "dev"
      ∷ []);
}

-- `HydrateVersionMetadata`, on the variables of the version package
unfoldable pub hydrate_version_metadata :
    Metadata → Text → Option (Text × List (Text × Text)) → Metadata
unfolding resolve_version_metadata read_build_info_metadata
hydrate_version_metadata current computed_revision info =
    resolve_version_metadata current computed_revision (read_build_info_metadata info)
