-- ===== src/Docsgen/Reference.antt =====
-- internal/docsgen/main.go: the reference document. `sort_targets` and `sort_texts` are `sort.Slice` by
-- name and `sort.Strings`; what the regular expressions find in the files is an input.
use prometheus_exporter_fram.Prelude.{
  ℕ, zero, suc, ◌-◌, Bool, false, Option, none, some, List, [], ◌∷◌, ◌++◌, map, length, any, ◌==◌,
  list_eq, nat_eq, if◌then◌else◌,
}
use prometheus_exporter_fram.Assoc.{Assoc}
use prometheus_exporter_fram.Text.{Text, codes}
use prometheus_exporter_fram.Lines.{newline, trim_newlines}
use prometheus_exporter_fram.Docsgen.{Target, make_variable, write_targets, write_list}

-- What is found in the files: the matches of the targets, the lists of the scaffold if they are there,
-- the variables, the version if it is there, and the public API files with their contents.
pub record Inputs : Type 0 where
  pub root_targets : List Target
  pub scaffold_targets : List Target
  pub default_files : Option (List Text)
  pub obsolete_files : Option (List Text)
  pub variables : Assoc Text Text
  pub framework_version : Option Text
  pub public_apis : List (Text × Text)

abbrev pub and_then : {A B : Type 0} → Option A → (A → Option B) → Option B
and_then none f = none
and_then (some a) f = f a

-- `makeTargets`, of the matches
unfoldable pub make_targets : (List Target → List Target) → Text → List Target → List Target
make_targets sort_targets name_prefix found =
    sort_targets (map (λ t. record { name = name_prefix ++ t.name; help = t.help }) found)

-- `%-13s`
abbrev pub spaces : ℕ → Text
spaces zero = []
spaces (suc n) = 32 ∷ spaces n

abbrev pub padded : Text → Text
padded key = key ++ spaces (13 - length key)

abbrev pub metadata_line : Text → Text → Text
metadata_line key value =
    codes "  " ++ padded (key ++ codes ":") ++ codes " " ++ value ++ newline ∷ []

-- the keys that are read from the Makefile, with their variables
abbrev pub metadata_variables : List (Text × Text)
metadata_variables =
    (codes "project-name", codes "CHECK_PROJECT_NAME")
    ∷ (codes "module", codes "CHECK_GO_MODULE")
    ∷ (codes "description", codes "CHECK_PROJECT_DESC")
    ∷ (codes "feature-name", codes "CHECK_FEATURE_NAME")
    ∷ (codes "namespace", codes "CHECK_METRIC_NAMESPACE")
    ∷ (codes "port", codes "CHECK_DEFAULT_PORT")
    ∷ (codes "config-file", codes "CHECK_FEATURE_CONFIG_FILE")
    ∷ []

unfoldable pub metadata_lines : ℕ → Assoc Text Text → List (Text × Text) → Option Text
unfolding make_variable
metadata_lines fuel vars [] = some []
metadata_lines fuel vars ((key, variable) ∷ rest) =
    and_then (make_variable vars fuel variable) (λ value.
      and_then (metadata_lines fuel vars rest) (λ lines. some (metadata_line key value ++ lines)))

-- `frameworkVersion`
abbrev pub shown_version : Text → Text
shown_version version = version ++ codes " (scaffold: " ++ version ++ codes ")"

-- `writeMetadata`
unfoldable pub write_metadata : ℕ → Assoc Text Text → Option Text → Option Text
unfolding metadata_lines
write_metadata fuel vars version = and_then (metadata_lines fuel vars metadata_variables) (λ lines.
    and_then version (λ v. some (
      codes "```text"
      ++ newline ∷ codes "Scaffold metadata:"
      ++ newline ∷ []
      ++ metadata_line (codes "target") (codes "<temporary directory>")
      ++ lines
      ++ metadata_line (codes "framework") (shown_version v)
      ++ codes "```"
      ++ newline ∷ newline ∷ [])))

abbrev pub ends_with_newline : Text → Bool
ends_with_newline [] = false
ends_with_newline (c ∷ []) = c == newline
ends_with_newline (c ∷ d ∷ s) = ends_with_newline (d ∷ s)

-- `writePublicAPI`, of the files in the order of their paths; one that was seen is left out
unfoldable pub write_public_api : List Text → List (Text × Text) → Text
write_public_api seen [] = []
write_public_api seen ((path, contents) ∷ files) =
    let rest = write_public_api (path ∷ seen) files in
    if any (λ p. p == path) seen
    then rest
    else codes "### `"
      ++ path
      ++ codes "`"
      ++ newline ∷ newline ∷ codes "```text"
      ++ newline ∷ contents
      ++ (if ends_with_newline contents then [] else newline ∷ [])
      ++ codes "```"
      ++ newline ∷ newline ∷ rest

abbrev pub heading : Text → Text
heading title = codes "## " ++ title ++ newline ∷ newline ∷ []

-- `generate`; the sorting of the files is an argument
unfoldable pub generate :
    ℕ
    → (List Target → List Target)
    → (List Text → List Text)
    → (List (Text × Text) → List (Text × Text))
    → Inputs
    → Option Text
unfolding make_targets write_targets write_list write_metadata write_public_api trim_newlines
generate fuel sort_targets sort_texts sort_files inputs =
    and_then inputs.default_files (λ default_files.
      and_then inputs.obsolete_files (λ obsolete_files.
        and_then (write_metadata fuel inputs.variables inputs.framework_version) (λ metadata. some (
          trim_newlines (
            codes "# Generated Reference"
            ++ newline ∷ newline ∷ []
            ++ codes "Generated by `make docs-generate`. Do not edit by hand."
            ++ newline ∷ newline ∷ heading (codes "Root Make Targets")
            ++ write_targets (make_targets sort_targets [] inputs.root_targets)
            ++ heading (codes "Scaffold Make Targets")
            ++ write_targets (make_targets sort_targets (codes "scaffold-") inputs.scaffold_targets)
            ++ heading (codes "Scaffold Managed Files")
            ++ write_list (sort_texts default_files)
            ++ heading (codes "Scaffold Obsolete Files")
            ++ write_list (sort_texts obsolete_files)
            ++ heading (codes "Demo Scaffold Metadata")
            ++ metadata
            ++ heading (codes "Public API Surfaces")
            ++ write_public_api [] (sort_files inputs.public_apis))
          ++ newline ∷ []))))
