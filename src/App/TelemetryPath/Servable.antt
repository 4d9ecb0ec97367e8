-- ===== src/App/TelemetryPath/Servable.antt =====
-- Exactly the servable paths pass the check.
use prometheus_exporter_fram.Prelude.{
  true, false, none, Result, ok, err, ◌==◌, ==_iff, list_eq, nat_eq, [], ◌∷◌, ◌++◌, ◌≡◌, ◌≢◌, ◌↔◌,
  arith, refl, ap, ◌∙◌, Bool-cases, inl, inr,
}
use prometheus_exporter_fram.Text.{
  Text, codes, is_empty, trim_space, has_prefix, contains_any, contains, has_prefix-append,
  has_prefix-split, contains-append, contains-split,
}
use prometheus_exporter_fram.App.TelemetryPath.{
  ParsedUrl, blanks, health_path, pprof_path, is_under, check_parsed, validate_metrics_path,
}

-- The texts that a path may not contain.
abbrev pub Lacks : Text → Text → Type 0
Lacks path sub = (pre post : Text) → path ≢ pre ++ (sub ++ post)

abbrev pub Outside : Text → Text → Text → Type 0
Outside path base subtree = (path ≢ base) × ((rest : Text) → path ≢ subtree ++ rest)

lacks : (path sub : Text) → contains path sub ≡ false → Lacks path sub
lacks path sub h pre post e = cc (h, contains-append pre sub post, ap (λ s. contains s sub) e)

contains-Lacks : (path sub : Text) → Lacks path sub → contains path sub ≡ false
contains-Lacks path sub h = elim (Bool-cases (contains path sub)) [
  | inl p ↦ let (pre, post, e) = contains-split path sub p in absurd (h pre post e)
  | inr p ↦ p
]

outside :
    (path base subtree : Text) → is_under path base subtree ≡ false → Outside path base subtree
outside path base subtree h = (
  λ e. ground (arith, ==_iff path base),
  λ rest e. cc (has_prefix-append subtree rest, ap (λ s. has_prefix s subtree) e, under_false.1),
)
  where
    under_false : ((path == base) ≡ false) × (has_prefix path subtree ≡ false)
    under_false = ground arith

under-Outside :
    (path base subtree : Text) → Outside path base subtree → is_under path base subtree ≡ false
under-Outside path base subtree h = elim (Bool-cases (path == base)) [
  | inl p ↦ absurd (h.0 ((==_iff path base).0 p))
  | inr p ↦ elim (Bool-cases (has_prefix path subtree)) [
    | inl q ↦ let (rest, e) = has_prefix-split path subtree q in absurd (h.1 rest e)
    | inr q ↦ ground arith
  ]
]

empty_of : (s : Text) → is_empty s ≡ true → s ≡ []
empty_of [] h = refl
empty_of (c ∷ s) h = cc

-- The result of the parser that the checks after it accept.
pub accepted :
    (path : Text) (r : Result Text ParsedUrl)
    → check_parsed path r ≡ none
    → (r ≡ ok (record { raw_query = []; fragment = [] }))
      × (is_under path health_path (codes "/healthz/") ≡ false)
      × (is_under path pprof_path (codes "/debug/pprof/") ≡ false)
unfolding check_parsed
accepted path (err x) h = cc
accepted path (ok url) h =
    let q : is_empty url.raw_query ≡ true = ground arith in
    let f : is_empty url.fragment ≡ true = ground arith in
    (cc (empty_of url.raw_query q, empty_of url.fragment f), ground arith, ground arith)

module _ (parse_request_uri : Text → Result Text ParsedUrl) where
  -- What a servable path is: rooted, trimmed, with none of the characters that mean something else
  -- in a URL or a mux pattern, without an empty segment, a URL that is a path alone, and outside
  -- the endpoints that the exporter keeps for itself.
  pub record IsServable (path : Text) : Type 0 where
    pub rooted : (rest : Text) × (path ≡ codes "/" ++ rest)
    pub trimmed : trim_space path ≡ path
    pub no_blank : contains_any path blanks ≡ false
    pub no_query : contains_any path (codes "?#") ≡ false
    pub no_brace : contains_any path (codes "{}") ≡ false
    pub no_empty_segment : Lacks path (codes "//")
    pub parsed : parse_request_uri path ≡ ok (record { raw_query = []; fragment = [] })
    pub not_health : Outside path health_path (codes "/healthz/")
    pub not_pprof : Outside path pprof_path (codes "/debug/pprof/")

  IsServable-of :
      (path : Text) → validate_metrics_path parse_request_uri path ≡ none → IsServable path
  unfolding validate_metrics_path
  IsServable-of path h =
      let (parsed, health, pprof) = accepted path (parse_request_uri path) (ground arith) in
      let (rest, rooted) = has_prefix-split path (codes "/") (ground arith) in
      record {
        rooted = (rest, rooted);
        trimmed = ground (arith, ==_iff (trim_space path) path);
        no_blank = ground arith;
        no_query = ground arith;
        no_brace = ground arith;
        no_empty_segment = lacks path (codes "//") (ground arith);
        parsed = parsed;
        not_health = outside path health_path (codes "/healthz/") health;
        not_pprof = outside path pprof_path (codes "/debug/pprof/") pprof;
      }

  of_servable :
      (path : Text) → IsServable path → validate_metrics_path parse_request_uri path ≡ none
  unfolding validate_metrics_path
  of_servable [] s = absurd (cc (s.rooted.1))
  of_servable (c ∷ path) s =
      let rooted : has_prefix (c ∷ path) (codes "/") ≡ true =
        ap (λ t. has_prefix t (codes "/")) s.rooted.1 ∙ has_prefix-append (codes "/") s.rooted.0 in
      let trimmed : (trim_space (c ∷ path) == (c ∷ path)) ≡ true =
        (==_iff (trim_space (c ∷ path)) (c ∷ path)).1 s.trimmed in
      rw (
        trimmed,
        rooted,
        s.no_blank,
        s.no_query,
        s.no_brace,
        contains-Lacks (c ∷ path) (codes "//") s.no_empty_segment,
        s.parsed,
        under-Outside (c ∷ path) health_path (codes "/healthz/") s.not_health,
        under-Outside (c ∷ path) pprof_path (codes "/debug/pprof/") s.not_pprof,
      )

  -- A path passes the check exactly if it is servable.
  pub validate_metrics_path_iff :
      (path : Text) → (validate_metrics_path parse_request_uri path ≡ none) ↔ IsServable path
  validate_metrics_path_iff path = (IsServable-of path, of_servable path)
