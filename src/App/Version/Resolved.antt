-- ===== src/App/Version/Resolved.antt =====
-- The resolved metadata: never empty, trimmed, and the first source that has something wins.
use prometheus_exporter_fram.Prelude.{
  Bool, false, ◌||◌, List, [], ◌∷◌, ◌++◌, ◌≡◌, refl, ◌==◌, list_eq, nat_eq, arith, if◌then◌else◌,
}
use prometheus_exporter_fram.Text.{Text, codes, is_empty, is_space, trim_space, trim_space_idem}
use prometheus_exporter_fram.App.Version.{
  first_non_empty, normalize_build_version, normalize_computed_revision, Metadata,
  resolve_version_metadata,
}

-- has something besides spaces
abbrev pub is_blank : Text → Bool
is_blank s = is_empty (trim_space s)

first_non_empty-trimmed : (l : List Text) → trim_space (first_non_empty l) ≡ first_non_empty l
unfolding first_non_empty
first_non_empty-trimmed [] = unfold trim_space in refl
first_non_empty-trimmed (v ∷ l) = ground (arith, first_non_empty-trimmed l, trim_space_idem v)

first_non_empty-filled :
    (l : List Text) → is_empty (first_non_empty (l ++ codes "dev" ∷ [])) ≡ false
unfolding first_non_empty is_space trim_space
first_non_empty-filled [] = refl
first_non_empty-filled (v ∷ l) = ground (arith, first_non_empty-filled l)

first_non_empty-head :
    (v : Text) (l : List Text) → is_blank v ≡ false → first_non_empty (v ∷ l) ≡ trim_space v
unfolding first_non_empty
first_non_empty-head v l h = ground arith

pub record IsResolved (m : Metadata) : Type 0 where
  pub version : (is_empty m.version ≡ false) × (trim_space m.version ≡ m.version)
  pub branch : (is_empty m.branch ≡ false) × (trim_space m.branch ≡ m.branch)
  pub revision : (is_empty m.revision ≡ false) × (trim_space m.revision ≡ m.revision)

-- a source without a value: blank, or the word that stands for none
abbrev pub is_absent : Text → Text → Bool
is_absent word s = is_blank s || trim_space s == word

dev : first_non_empty (codes "dev" ∷ []) ≡ codes "dev"
unfolding first_non_empty is_space trim_space
dev = refl

blank : trim_space [] ≡ []
unfolding trim_space
blank = refl

resolved_again :
    (m other : Metadata) (computed : Text)
    → IsResolved m
    → resolve_version_metadata m computed other ≡ m
unfolding resolve_version_metadata
resolved_again m other computed r = ground arith

module _ (current build : Metadata) (computed : Text) where
  resolve_version_metadata-IsResolved : IsResolved (resolve_version_metadata current computed build)
  unfolding resolve_version_metadata
  resolve_version_metadata-IsResolved = record {
    version = (
      first_non_empty-filled (current.version ∷ normalize_build_version build.version ∷ []),
      first_non_empty-trimmed
          (current.version ∷ normalize_build_version build.version ∷ codes "dev" ∷ []),
    );
    branch = (
      first_non_empty-filled (current.branch ∷ trim_space build.branch ∷ []),
      first_non_empty-trimmed (current.branch ∷ trim_space build.branch ∷ codes "dev" ∷ []),
    );
    revision = (
      first_non_empty-filled (
          current.revision
          ∷ normalize_computed_revision build.revision
          ∷ normalize_computed_revision computed
          ∷ []),
      first_non_empty-trimmed (
          current.revision
          ∷ normalize_computed_revision build.revision
          ∷ normalize_computed_revision computed
          ∷ codes "dev"
          ∷ []),
    );
  }

  version_lem : (resolve_version_metadata current computed build).version ≡ (
      if is_blank current.version
      then (if is_absent (codes "(devel)") build.version
          then codes "dev"
          else trim_space build.version)
      else trim_space current.version)
  unfolding resolve_version_metadata
  version_lem = ground (arith, dev, blank, trim_space_idem build.version)

  branch_lem : (resolve_version_metadata current computed build).branch ≡ (
      if is_blank current.branch
      then (if is_blank build.branch then codes "dev" else trim_space build.branch)
      else trim_space current.branch)
  unfolding resolve_version_metadata
  branch_lem = ground (arith, dev, trim_space_idem build.branch)

  revision_lem : (resolve_version_metadata current computed build).revision ≡ (
      if is_blank current.revision
      then (if is_absent (codes "unknown") build.revision
          then (if is_absent (codes "unknown") computed then codes "dev" else trim_space computed)
          else trim_space build.revision)
      else trim_space current.revision)
  unfolding resolve_version_metadata
  revision_lem =
      ground (arith, dev, blank, trim_space_idem build.revision, trim_space_idem computed)

-- Whatever the sources hold, no resolved field is empty or has spaces around it. Each is the first
-- of its sources that has a value, trimmed, or `dev`: what the linker set, the build information
-- and, for the revision, the computed one, where `(devel)` is no version and `unknown` no revision.
-- What is resolved once stays so when it is resolved again, whatever the other sources hold then.
pub resolve_version_metadata_lem :
    (current build other : Metadata) (computed computed' : Text)
    → IsResolved (resolve_version_metadata current computed build)
      × ((resolve_version_metadata current computed build).version ≡ (
          if is_blank current.version
          then (if is_absent (codes "(devel)") build.version
              then codes "dev"
              else trim_space build.version)
          else trim_space current.version))
      × ((resolve_version_metadata current computed build).branch ≡ (
          if is_blank current.branch
          then (if is_blank build.branch then codes "dev" else trim_space build.branch)
          else trim_space current.branch))
      × ((resolve_version_metadata current computed build).revision ≡ (
          if is_blank current.revision
          then (if is_absent (codes "unknown") build.revision
              then (if is_absent (codes "unknown") computed
                  then codes "dev"
                  else trim_space computed)
              else trim_space build.revision)
          else trim_space current.revision))
      × (resolve_version_metadata (resolve_version_metadata current computed build) computed' other
          ≡ resolve_version_metadata current computed build)
resolve_version_metadata_lem current build other computed computed' =
    let r = resolve_version_metadata-IsResolved current build computed in
    (
      r,
      version_lem current build computed,
      branch_lem current build computed,
      revision_lem current build computed,
      resolved_again (resolve_version_metadata current computed build) other computed' r,
    )
