-- ===== src/FeatureKit/ConfigFile/Outcomes.antt =====
-- When a config file is loaded, and when that is an error.
use prometheus_exporter_fram.Prelude.{
  Bool, true, false, not, Option, none, some, Result, ok, err, ◌≡◌, ◌↔◌, ◌⊎◌, refl, Bool-cases, inl,
  inr,
}
use prometheus_exporter_fram.Text.{Text, is_empty, trim_space}
use prometheus_exporter_fram.App.Names.{non_empty}
use prometheus_exporter_fram.FeatureKit.Extension.{default_config_file}
use prometheus_exporter_fram.FeatureKit.ConfigFile.{
  FileOps, Loading, LoadError, after_read, after_decode, load_feature_config_file, read,
}

module _ {T P R Y : Type 0} (ops : FileOps T P R Y) where
  -- The decoder has no error, or that of an empty document.
  abbrev pub Decodes : T × Option Y → Type 0
  Decodes (target, error) = (error ≡ none) ⊎ ((e : Y) × (error ≡ some e) × (ops.is_eof e ≡ true))

  abbrev pub Loads : Result R P → T → Type 0
  Loads file target = (contents : P) × (file ≡ ok contents) × Decodes (ops.decode target contents)

  abbrev pub Missing : Result R P → Type 0
  Missing file = (e : R) × (file ≡ err e) × (ops.is_not_exist e ≡ true)

  -- The outcomes of reading a file that is required or not.
  abbrev pub Outcome : Result R P → Bool → Text → T → Loading T R Y → Type 0
  Outcome file required path target l =
      (l.path ≡ path)
      × ((l.loaded ≡ true) ↔ Loads file target)
      × ((l.error ≡ none) ↔ (Loads file target ⊎ ((required ≡ false) × Missing file)))

  Decodes-eof : (t : T) (e : Y) → Decodes (t, some e) → ops.is_eof e ≡ true
  Decodes-eof t e (inl p) = absurd (cc)
  Decodes-eof t e (inr (e', p, q)) = cc

  Missing-err : (e : R) → Missing (err e) → ops.is_not_exist e ≡ true
  Missing-err e (e', p, q) = cc

  not-Missing-ok : (contents : P) → Missing (ok contents) → ⊥
  not-Missing-ok contents (e, p, q) = absurd (cc)

  Loads-ok :
      (contents : P) (target : T)
      → Loads (ok contents) target
      → Decodes (ops.decode target contents)
  Loads-ok contents target (c, p, inl q) = inl (cc)
  Loads-ok contents target (c, p, inr (e, q, r)) = inr (e, cc, r)

  not-Loads-err : (e : R) (target : T) → Loads (err e) target → ⊥
  not-Loads-err e target (c, p, q) = absurd (cc)

  not-Decodes : (t : T) (e : Y) → ops.is_eof e ≡ false → Decodes (t, some e) → ⊥
  not-Decodes t e h d = let q = Decodes-eof t e d in absurd (cc)

  decode-loaded :
      (name path : Text) (d : T × Option Y)
      → (let l = after_decode ops name path d in
          (l.path ≡ path) × ((l.loaded ≡ true) ↔ Decodes d) × ((l.error ≡ none) ↔ Decodes d))
  decode-loaded name path (t, none) = (refl, (λ h. inl refl, λ h. refl), (λ h. inl refl, λ h. refl))
  decode-loaded name path (t, some e) = elim (Bool-cases (ops.is_eof e)) [
    | inl h ↦ rw (h) (refl, (λ p. inr (e, refl, h), λ p. refl), (λ p. inr (e, refl, h), λ p. refl))
    | inr h ↦
        let never = not-Decodes t e h in
        rw (h) (
          refl,
          (λ p. absurd (cc), λ d. absurd (never d)),
          (λ p. absurd (cc), λ d. absurd (never d)),
        )
  ]

  failed-Outcome :
      (required : Bool) (path : Text) (target : T) (e : R) (x : LoadError R Y)
      → (required ≡ false → Missing (err e) → ⊥)
      → Outcome
          (err e)
          required
          path
          target
          (record { target = target; path = path; loaded = false; error = some x })
  failed-Outcome required path target e x never = (
    refl,
    (λ p. absurd (cc), λ l. absurd (not-Loads-err e target l)),
    (
      λ p. absurd (cc),
      λ h. elim h [ inl l ↦ absurd (not-Loads-err e target l) | inr (q, m) ↦ absurd (never q m) ],
    ),
  )

  read-Outcome :
      (name path : Text) (required : Bool) (target : T) (file : Result R P)
      → Outcome file required path target (after_read ops name path required target file)
  read-Outcome name path required target (ok contents) =
      let (p, l, e) = decode-loaded name path (ops.decode target contents) in
      (
        p,
        (λ h. (contents, refl, l.0 h), λ h. l.1 (Loads-ok contents target h)),
        (
          λ h. inl (contents, refl, e.0 h),
          λ h. elim h [
            | inl h ↦ e.1 (Loads-ok contents target h)
            | inr (q, m) ↦ absurd (not-Missing-ok contents m)
          ],
        ),
      )
  read-Outcome name path false target (err e) = elim (Bool-cases (ops.is_not_exist e)) [
    | inl h ↦ rw (h) (
      refl,
      (λ p. absurd (cc), λ l. absurd (not-Loads-err e target l)),
      (λ p. inr (refl, (e, refl, h)), λ l. refl),
    )
    | inr h ↦ rw (h) (
        failed-Outcome false path target e (read name path e)
          (λ q m. let z = Missing-err e m in absurd (cc)))
  ]
  read-Outcome name path true target (err e) =
      failed-Outcome true path target e (read name path e) (λ q m. absurd (cc))

  -- `LoadFeatureConfigFile` returns the given path, trimmed, or the default one if it is blank. The
  -- file is loaded exactly if it is read and decodes or is an empty document; there is no error
  -- exactly if it is loaded, or no path was given and the file does not exist.
  pub load_feature_config_file-Outcome :
      (join_path : Text → Text → Text) (feature_name explicit_path : Text) (target : T)
      → (let path =
            non_empty (trim_space explicit_path) (default_config_file join_path feature_name) in
          Outcome
            (ops.read_file path)
            (not (is_empty (trim_space explicit_path)))
            path
            target
            (load_feature_config_file ops join_path feature_name explicit_path target))
  unfolding load_feature_config_file
  load_feature_config_file-Outcome join_path feature_name explicit_path target =
      read-Outcome feature_name _ _ target _
