-- ===== src/Metrics/Descriptors/Loading.antt =====
-- Which specs load, and what the loaded descriptors are.
use prometheus_exporter_fram.Prelude.{
  ℕ, suc, Bool, true, false, not, ◌&&◌, Option, none, some, List, [], ◌∷◌, ◌++◌, ◌==◌, list_eq,
  nat_eq, Result, ok, err, if◌then◌else◌, ◌≡◌, refl, arith, map, ==_iff, ==_refl, Bool-cases, inl,
  inr, append-nil, append_assoc,
}
use prometheus_exporter_fram.Text.{Text, is_empty}
use prometheus_exporter_fram.Assoc.{Assoc, lookup, insert, lookup-insert}
use prometheus_exporter_fram.Metrics.Descriptors.{
  MetricSpec, unknown_descriptor, Descriptors, metric_name, mem, validate_specs, desc_of, load_loop,
  load, get_desc, describe_loop, describe,
}

abbrev pub is_ok : {E A : Type 0} → Result E A → Bool
is_ok (ok a) = true
is_ok (err e) = false

-- None is empty, and none is in `seen` or there twice.
unfoldable pub fresh : List Text → List Text → Bool
fresh seen [] = true
fresh seen (x ∷ xs) = not (is_empty x) && not (mem x seen) && fresh (x ∷ seen) xs

fresh-absent :
    (k : Text) (seen xs : List Text) → fresh seen xs ≡ true → mem k seen ≡ true → mem k xs ≡ false
unfolding fresh
fresh-absent k seen [] f p = refl
fresh-absent k seen (x ∷ xs) f p = ground (arith, fresh-absent k (x ∷ seen) xs, ==_iff x k)

abbrev pub ids : List MetricSpec → List Text
ids specs = map (λ s. s.id) specs

validate_specs-fresh :
    (i : ℕ) (seen : List Text) (specs : List MetricSpec)
    → is_ok (validate_specs i seen specs) ≡ fresh seen (ids specs)
unfolding validate_specs fresh
validate_specs-fresh i seen [] = refl
validate_specs-fresh i seen (s ∷ specs) =
    ground (arith, validate_specs-fresh (suc i) (s.id ∷ seen) specs)

module _ {D : Type 0} (new_desc : Text → Text → List Text → D)
    (feature_name namespace_name : Text) where
  abbrev pub names : List MetricSpec → List Text
  names specs = map (metric_name feature_name namespace_name) specs

  -- The table of names has the names seen as its keys.
  Keys : Assoc Text Text → List Text → Type 0
  Keys m seen = (x : Text) → (elim (lookup x m) [ none ↦ false | some y ↦ true ]) ≡ mem x seen

  insert-Keys :
      (m : Assoc Text Text) (seen : List Text) (x id : Text)
      → Keys m seen
      → Keys (insert x id m) (x ∷ seen)
  unfolding Keys
  insert-Keys m seen x id h y = elim (Bool-cases (x == y)) [
    | inl p ↦ rw (lookup-insert x y id m, p) refl
    | inr p ↦ rw (lookup-insert x y id m, p) (h y)
  ]

  load_loop-fresh :
      (m : Assoc Text Text) (d : Descriptors D) (seen : List Text) (specs : List MetricSpec)
      → Keys m seen
      → is_ok (load_loop new_desc feature_name namespace_name m d specs) ≡ fresh seen (names specs)
  unfolding load_loop fresh Keys
  load_loop-fresh m d seen [] h = refl
  load_loop-fresh m d seen (s ∷ specs) h =
      let n = metric_name feature_name namespace_name s in
      ground (
        arith,
        h n,
        load_loop-fresh (insert n s.id m)
            (record {
              order = d.order ++ s.id ∷ [];
              descs = insert s.id (desc_of new_desc feature_name namespace_name s) d.descs;
            })
            (n ∷ seen) specs (insert-Keys m seen n s.id h),
      )

  -- `LoadFeatureMetricDescriptors` returns if and only if the IDs of the specs are not empty and
  -- different from one another, and so are the rendered names; otherwise it panics.
  pub load_iff :
      (specs : List MetricSpec)
      → is_ok (load new_desc feature_name namespace_name specs)
        ≡ fresh [] (ids specs) && fresh [] (names specs)
  unfolding load Keys lookup
  load_iff specs = ground (
    arith,
    validate_specs-fresh 0 [] specs,
    load_loop-fresh [] (record { order = []; descs = [] }) [] specs (λ x. refl),
  )

  abbrev pub first_of : {A : Type 0} → Option A → Option A → Option A
  first_of none b = b
  first_of (some a) b = some a

  -- the descriptor of the spec of an ID
  unfoldable pub found : Text → List MetricSpec → Option D
  found k [] = none
  found k (s ∷ specs) =
      let rest = found k specs in
      if s.id == k then some (desc_of new_desc feature_name namespace_name s) else rest

  fresh-found :
      (k : Text) (seen : List Text) (specs : List MetricSpec)
      → fresh seen (ids specs) ≡ true
      → mem k seen ≡ true
      → found k specs ≡ none
  unfolding fresh found
  fresh-found k seen [] f p = refl
  fresh-found k seen (s ∷ specs) f p =
      ground (arith, fresh-found k (s.id ∷ seen) specs, ==_iff s.id k)

  -- What a loop that returns has done to the descriptors.
  load_loop-lookup :
      (m : Assoc Text Text) (d r : Descriptors D) (seen : List Text) (specs : List MetricSpec)
      (k : Text)
      → load_loop new_desc feature_name namespace_name m d specs ≡ ok r
      → fresh seen (ids specs) ≡ true
      → lookup k r.descs ≡ first_of (found k specs) (lookup k d.descs)
  unfolding load_loop found fresh
  load_loop-lookup m d r seen [] k h f = ground arith
  load_loop-lookup m d r seen (s ∷ specs) k h f =
      let n = metric_name feature_name namespace_name s in
      let dd = desc_of new_desc feature_name namespace_name s in
      ground (
        arith,
        lookup-insert s.id k dd d.descs,
        ==_refl k,
        ==_iff s.id k,
        fresh-found k (s.id ∷ seen) specs,
        load_loop-lookup (insert n s.id m)
            (record { order = d.order ++ s.id ∷ []; descs = insert s.id dd d.descs }) r
            (s.id ∷ seen) specs k,
      )

  load_loop-order :
      (m : Assoc Text Text) (d r : Descriptors D) (specs : List MetricSpec)
      → load_loop new_desc feature_name namespace_name m d specs ≡ ok r
      → r.order ≡ d.order ++ ids specs
  unfolding load_loop
  load_loop-order m d r [] h = ground (arith, append-nil d.order)
  load_loop-order m d r (s ∷ specs) h =
      let n = metric_name feature_name namespace_name s in
      let dd = desc_of new_desc feature_name namespace_name s in
      ground (
        arith,
        append_assoc d.order (s.id ∷ []) (ids specs),
        load_loop-order (insert n s.id m)
            (record { order = d.order ++ s.id ∷ []; descs = insert s.id dd d.descs }) r specs,
      )

  -- A list of specs whose IDs are the ones found describes itself.
  describe_specs :
      (r : Descriptors D) (seen : List Text) (specs : List MetricSpec)
      → fresh seen (ids specs) ≡ true
      → ((k : Text) → mem k (ids specs) ≡ true → lookup k r.descs ≡ found k specs)
      → describe_loop r (ids specs) ≡ ok (map (desc_of new_desc feature_name namespace_name) specs)
  unfolding describe_loop get_desc found fresh
  describe_specs r seen [] f h = refl
  describe_specs r seen (s ∷ specs) f h =
      let rest =
        describe_specs r (s.id ∷ seen) specs (ground arith)
          (λ k p. ground (arith, h k, ==_iff s.id k, fresh-absent k (s.id ∷ seen) (ids specs))) in
      ground (arith, h s.id, ==_refl s.id, rest)

  validate_loads :
      (specs : List MetricSpec) (d : Descriptors D)
      → load new_desc feature_name namespace_name specs ≡ ok d
      → (fresh [] (ids specs) ≡ true)
        × (load_loop new_desc feature_name namespace_name []
              (record { order = []; descs = [] })
              specs
            ≡ ok d)
  unfolding load
  validate_loads specs d h = ground (arith, validate_specs-fresh 0 [] specs)

  -- The descriptors that specs have loaded to: `Describe` sends the descriptor of each spec, in the
  -- order of the specs, without a panic; and `Get` of any ID is the descriptor of the spec of that
  -- ID, or the panic if there is none.
  pub load_lem :
      (specs : List MetricSpec) (d : Descriptors D)
      → load new_desc feature_name namespace_name specs ≡ ok d
      → (describe d ≡ ok (map (desc_of new_desc feature_name namespace_name) specs))
        × ((k : Text)
            → get_desc d k
              ≡ elim (found k specs) [ none ↦ err (unknown_descriptor k) | some desc ↦ ok desc ])
  unfolding describe get_desc lookup describe_loop
  load_lem specs d h =
      let (f, l) = validate_loads specs d h in
      let empty : Descriptors D = record { order = []; descs = [] } in
      let look = λ (k : Text). load_loop-lookup [] empty d [] specs k l f in
      (
        rw (load_loop-order [] empty d specs l)
            (describe_specs d [] specs f (λ k p. ground (arith, look k))),
        λ k. ground (arith, look k),
      )

pub list_beq-append : (f a b : Text) → ((f ++ a) == (f ++ b)) ≡ (a == b)
list_beq-append [] a b = refl
list_beq-append (x ∷ f) a b = ground (arith, list_beq-append f a b, ==_refl x)

mem-append : (f x : Text) (seen : List Text) → mem (f ++ x) (map (λ y. f ++ y) seen) ≡ mem x seen
mem-append f x [] = refl
mem-append f x (y ∷ seen) = ground (arith, mem-append f x seen, list_beq-append f y x)

is_empty-append : (f x : Text) → is_empty x ≡ false → is_empty (f ++ x) ≡ false
is_empty-append [] x h = h
is_empty-append (c ∷ f) x h = refl

-- Texts that are not empty and different stay so behind a prefix.
pub fresh-append :
    (f : Text) (seen xs : List Text)
    → fresh seen xs ≡ true
    → fresh (map (λ y. f ++ y) seen) (map (λ y. f ++ y) xs) ≡ true
unfolding fresh
fresh-append f seen [] h = refl
fresh-append f seen (x ∷ xs) h =
    ground (arith, mem-append f x seen, is_empty-append f x, fresh-append f (x ∷ seen) xs)
