-- ===== src/App/Handler/Routes.antt =====
-- The routes of a handler whose metrics path has passed the check.
use prometheus_exporter_fram.Prelude.{
  Bool, true, false, not, ◌&&◌, none, some, List, [], ◌∷◌, ◌++◌, Result, ok, err, any, all, ◌≡◌,
  refl, arith, if◌then◌else◌, ◌==◌, ==_iff, ==_refl, list_eq, nat_eq, Option-cases, inl, inr, ap,
  append-nil, append_assoc,
}
use prometheus_exporter_fram.Text.{Text, codes, is_empty, has_prefix, contains_any}
use prometheus_exporter_fram.App.TelemetryPath.{ParsedUrl, validate_metrics_path, blanks}
use prometheus_exporter_fram.App.TelemetryPath.Servable.{accepted}
use prometheus_exporter_fram.App.Handler.{
  HandlerOptions, normalized_options, Served, metrics, health, landing, pprof_routes, routes,
  invalid_metrics_path, handle_all, new_handler, new_handler_checked,
}

-- A pattern that is a path alone: rooted, without a method, a host, a wildcard or an escape.
pub is_plain : Text → Bool
is_plain p =
    has_prefix p (codes "/")
    && not (contains_any p blanks)
    && not (contains_any p (codes "{}"))
    && not (contains_any p (codes "%"))

-- Each pattern is plain, and none is among those before.
pub apart : List (Text × Served) → List (Text × Served) → Bool
apart mux [] = true
apart mux (route ∷ rest) =
    is_plain route.0 && not (any (λ r. route.0 == r.0) mux) && apart (mux ++ route ∷ []) rest

abbrev all_plain : List (Text × Served) → Bool
all_plain rs = all (λ r. is_plain r.0) rs

abbrev others : Text → List (Text × Served) → Bool
others path rs = all (λ r. not (r.0 == path)) rs

apart-front :
    (m : Text × Served) (mux rs : List (Text × Served))
    → others m.0 rs ≡ true
    → apart mux rs ≡ true
    → apart (m ∷ mux) rs ≡ true
unfolding apart
apart-front m mux [] h k = refl
apart-front m mux (r ∷ rs) h k = ground (arith, apart-front m (mux ++ r ∷ []) rs)

-- Patterns below a subtree are others than a path outside of it.
others-outside :
    (path sub : Text) (rs : List (Text × Served))
    → has_prefix path sub ≡ false
    → all (λ r. has_prefix r.0 sub) rs ≡ true
    → others path rs ≡ true
others-outside path sub [] h k = refl
others-outside path sub (r ∷ rs) h k =
    ground (arith, others-outside path sub rs h, ==_iff r.0 path, ap (λ t. has_prefix t sub))

others-append :
    (path : Text) (rs qs : List (Text × Served))
    → others path rs ≡ true
    → others path qs ≡ true
    → others path (rs ++ qs) ≡ true
others-append path [] qs h k = k
others-append path (r ∷ rs) qs h k = ground (arith, others-append path rs qs)

abbrev landing_routes : Bool → List (Text × Served)
landing_routes land = if land then (codes "/", landing) ∷ [] else []

-- the routes after the one of the metrics
abbrev fixed_routes : Bool → Bool → List (Text × Served)
fixed_routes enable_pprof land =
    (codes "/healthz", health) ∷ pprof_routes enable_pprof ++ landing_routes land

fixed-apart : (enable_pprof land : Bool) → apart [] (fixed_routes enable_pprof land) ≡ true
unfolding apart pprof_routes is_plain contains_any has_prefix
fixed-apart true true = refl
fixed-apart true false = refl
fixed-apart false true = refl
fixed-apart false false = refl

pprof-below :
    (enable_pprof : Bool)
    → all (λ r. has_prefix r.0 (codes "/debug/pprof/")) (pprof_routes enable_pprof) ≡ true
unfolding pprof_routes has_prefix
pprof-below true = refl
pprof-below false = refl

landing-others :
    (path : Text) (land : Bool)
    → land && path == codes "/" ≡ false
    → others path (landing_routes land) ≡ true
landing-others path false h = refl
landing-others path true h = ground (arith, ==_iff (codes "/") path, ==_refl path)

fixed-others :
    (path : Text) (enable_pprof land : Bool)
    → (path == codes "/healthz") ≡ false
    → has_prefix path (codes "/debug/pprof/") ≡ false
    → land && path == codes "/" ≡ false
    → others path (fixed_routes enable_pprof land) ≡ true
fixed-others path enable_pprof land h p l =
    let below =
      others-outside path (codes "/debug/pprof/") (pprof_routes enable_pprof) p
        (pprof-below enable_pprof) in
    let rest =
      others-append path (pprof_routes enable_pprof) (landing_routes land) below
        (landing-others path land l) in
    ground (arith, rest, ==_iff (codes "/healthz") path, ==_refl path)

routes-apart :
    (path : Text) (enable_pprof : Bool)
    → is_plain path ≡ true
    → (path == codes "/healthz") ≡ false
    → has_prefix path (codes "/debug/pprof/") ≡ false
    → apart [] (routes path enable_pprof) ≡ true
unfolding routes apart
routes-apart path enable_pprof plain h p =
    let land = not (is_empty path) && not (path == codes "/") in
    let l : land && path == codes "/" ≡ false = ground arith in
    rw plain (
      apart-front (path, metrics) [] (fixed_routes enable_pprof land)
        (fixed-others path enable_pprof land h p l) (fixed-apart enable_pprof land))

-- What the check of the path leaves over.
accepted_path :
    (parse_request_uri : Text → Result Text ParsedUrl) (path : Text)
    → validate_metrics_path parse_request_uri path ≡ none
    → contains_any path (codes "%") ≡ false
    → (is_plain path ≡ true)
      × ((path == codes "/healthz") ≡ false)
      × (has_prefix path (codes "/debug/pprof/") ≡ false)
unfolding validate_metrics_path is_plain
accepted_path parse_request_uri path h literal =
    let (parsed, not_health, not_pprof) = accepted path (parse_request_uri path) (ground arith) in
    (ground arith, ground arith, ground arith)

module _ (conflicts : Text → Text → Bool)
    (plain_conflicts : (a b : Text)
      → is_plain a ≡ true
      → is_plain b ≡ true
      → conflicts a b ≡ (a == b)) where
  any-conflicts :
      (p : Text) (mux : List (Text × Served))
      → is_plain p ≡ true
      → all_plain mux ≡ true
      → any (λ r. conflicts p r.0) mux ≡ any (λ r. p == r.0) mux
  any-conflicts p [] h k = refl
  any-conflicts p (r ∷ mux) h k = ground (arith, any-conflicts p mux h, plain_conflicts p r.0 h)

  plain-snoc :
      (mux : List (Text × Served)) (r : Text × Served)
      → all_plain mux ≡ true
      → is_plain r.0 ≡ true
      → all_plain (mux ++ r ∷ []) ≡ true
  plain-snoc [] r h k = ground arith
  plain-snoc (x ∷ mux) r h k = ground (arith, plain-snoc mux r)

  handle_all-apart :
      (mux rs : List (Text × Served))
      → all_plain mux ≡ true
      → apart mux rs ≡ true
      → handle_all conflicts mux rs ≡ ok (mux ++ rs)
  unfolding handle_all apart
  handle_all-apart mux [] h k = rw append-nil refl
  handle_all-apart mux (r ∷ rs) h k = ground (
    arith,
    any-conflicts r.0 mux,
    append_assoc mux (r ∷ []) rs,
    handle_all-apart (mux ++ r ∷ []) rs (plain-snoc mux r h (ground arith)),
  )

  -- With a mux in which patterns that are paths alone clash only if they are equal, and a metrics
  -- path without a percent sign: `NewHandlerChecked` does not panic. It returns the error of the check
  -- of the metrics path, or else a handler that serves the metrics there, the health check, the pprof
  -- pages or their absence, and the landing page, if the metrics are not at its place.
  pub new_handler_checked_lem :
      {R : Type 0} (parse_request_uri : Text → Result Text ParsedUrl) (new_registry : R)
      (opts : HandlerOptions R)
      → contains_any (normalized_options new_registry opts).metrics_path (codes "%") ≡ false
      → new_handler_checked conflicts parse_request_uri new_registry opts
        ≡ elim (validate_metrics_path parse_request_uri
            (normalized_options new_registry opts).metrics_path) [
              | some e ↦ err (invalid_metrics_path e)
              | none ↦
                  ok (routes (normalized_options new_registry opts).metrics_path opts.enable_pprof)
            ]
  unfolding new_handler_checked new_handler
  new_handler_checked_lem parse_request_uri new_registry opts literal =
      let path = (normalized_options new_registry opts).metrics_path in
      elim (Option-cases (validate_metrics_path parse_request_uri path)) [
        | inl p ↦
            let (plain, not_health, not_pprof) = accepted_path parse_request_uri path p literal in
            rw (p, new_handler_checked)
              (handle_all-apart [] (routes path opts.enable_pprof) refl
                (routes-apart path opts.enable_pprof plain not_health not_pprof))
        | inr (e, p) ↦ rw (p, new_handler_checked) refl
      ]
