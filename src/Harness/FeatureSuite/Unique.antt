-- ===== src/Harness/FeatureSuite/Unique.antt =====
-- Which calls of `Register` a suite accepts, and the tests that it then starts.
use prometheus_exporter_fram.Prelude.{
  Bool, true, false, not, ◌&&◌, none, some, List, [], ◌∷◌, ◌++◌, ok, ◌==◌, list_eq, nat_eq, any,
  map, ◌≡◌, refl, sym, ◌∙◌, arith, ==_iff, append-nil, append_assoc, Bool-cases, inl, inr, ap,
  ◌>>=◌,
}
use prometheus_exporter_fram.Text.{Text, is_empty}
use prometheus_exporter_fram.Metrics.Descriptors.{mem}
use prometheus_exporter_fram.Metrics.Descriptors.Loading.{is_ok}
use prometheus_exporter_fram.Harness.FeatureSuite.{
  TestFunc, Tests, Call, names, register, register_all, standard_calls, new_feature_test_suite,
  run_tests,
}

pub different : List Text → Bool
different [] = true
different (x ∷ xs) = not (mem x xs) && different xs

mem-append : (x : Text) (xs ys : List Text) → mem x ys ≡ true → mem x (xs ++ ys) ≡ true
mem-append x [] ys h = h
mem-append x (y ∷ xs) ys h = ground (arith, mem-append x xs ys h)

mem-snoc :
    (x y : Text) (xs : List Text)
    → mem x xs ≡ false
    → (y == x) ≡ false
    → mem x (xs ++ y ∷ []) ≡ false
mem-snoc x y [] h n = ground arith
mem-snoc x y (z ∷ xs) h n = ground (arith, mem-snoc x y xs)

different-repeated :
    (x : Text) (xs ys : List Text) → mem x xs ≡ true → different (xs ++ x ∷ ys) ≡ false
unfolding different
different-repeated x [] ys h = ground arith
different-repeated x (y ∷ xs) ys h = elim (Bool-cases (y == x)) [
  | inl p ↦ ground (arith, mem-append y xs (x ∷ ys), ==_iff y x)
  | inr p ↦ ground (arith, different-repeated x xs ys)
]

different-snoc :
    (x : Text) (xs : List Text)
    → different xs ≡ true
    → mem x xs ≡ false
    → different (xs ++ x ∷ []) ≡ true
unfolding different
different-snoc x [] d h = refl
different-snoc x (y ∷ xs) d h =
    ground (arith, different-snoc x xs, mem-snoc y x xs, ==_iff x y, ==_iff y x)

module _ {T : Type 0} where
  -- the names and the functions of calls
  abbrev pub called : List (Call T) → List Text
  called calls = map (λ c. c.0) calls

  pub complete : List (Call T) → Bool
  complete [] = true
  complete ((name, none) ∷ calls) = false
  complete ((name, some run) ∷ calls) = not (is_empty name) && complete calls

  pub given : List (Call T) → Tests T
  given [] = []
  given ((name, none) ∷ calls) = given calls
  given ((name, some run) ∷ calls) = (name, run) ∷ given calls

  names-snoc :
      (tests : Tests T) (name : Text) (run : TestFunc T)
      → names (tests ++ (name, run) ∷ []) ≡ names tests ++ name ∷ []
  names-snoc [] name run = refl
  names-snoc (t ∷ tests) name run = ap (λ ns. t.0 ∷ ns) (names-snoc tests name run)

  any-names :
      (tests : Tests T) (name : Text) → any (λ t. t.0 == name) tests ≡ mem name (names tests)
  any-names [] name = refl
  any-names (t ∷ tests) name = ground (arith, any-names tests name)

  -- what the calls are that a suite with some tests accepts
  accepts : Tests T → List (Call T) → Bool
  accepts tests calls = complete calls && different (names tests ++ called calls)

  register_all-accepts :
      (tests : Tests T) (calls : List (Call T))
      → different (names tests) ≡ true
      → is_ok (register_all tests calls) ≡ accepts tests calls
  unfolding register_all accepts complete register
  register_all-accepts tests [] d = sym (ap different (append-nil (names tests)) ∙ d)
  register_all-accepts tests ((name, none) ∷ calls) d = elim (Bool-cases (is_empty name)) [
    | inl p ↦ ground arith
    | inr p ↦ ground arith
  ]
  register_all-accepts tests ((name, some run) ∷ calls) d =
      let after = tests ++ (name, run) ∷ [] in
      let named : names after ≡ names tests ++ name ∷ [] = names-snoc tests name run in
      let rest : mem name (names tests) ≡ false
          → is_ok (register_all after calls) ≡ accepts after calls =
        λ q.
          register_all-accepts after calls
            (ap different named ∙ different-snoc name (names tests) d q) in
      let joined : different (names after ++ called calls)
          ≡ different (names tests ++ name ∷ called calls) =
        ap (λ ns. different (ns ++ called calls)) named
        ∙ ap different (append_assoc (names tests) (name ∷ []) (called calls)) in
      ground (
        arith,
        any-names tests name,
        different-repeated name (names tests) (called calls),
        rest,
        joined,
      )

  register_all-given :
      (tests : Tests T) (calls : List (Call T))
      → is_ok (register_all tests calls) ≡ true
      → register_all tests calls ≡ ok (tests ++ given calls)
  unfolding register_all given register
  register_all-given tests [] h = sym (ap ok (append-nil tests))
  register_all-given tests ((name, none) ∷ calls) h = elim (Bool-cases (is_empty name)) [
    | inl p ↦ ground arith
    | inr p ↦ ground arith
  ]
  register_all-given tests ((name, some run) ∷ calls) h = ground (
    arith,
    register_all-given (tests ++ (name, run) ∷ []) calls,
    append_assoc tests ((name, run) ∷ []) (given calls),
  )

  with_tests :
      (test : Text × TestFunc T) (tests : Tests T) (calls : List (Call T))
      → different (names (test ∷ tests)) ≡ true
      → let suite = register_all (test ∷ tests) calls in
        (is_ok suite ≡ accepts (test ∷ tests) calls)
        × (is_ok suite ≡ true
            → (suite >>= λ all. ok (run_tests all)) ≡ ok (some (test ∷ tests ++ given calls)))
  unfolding run_tests
  with_tests test tests calls d = (
    register_all-accepts (test ∷ tests) calls d,
    λ h.
        ap (λ suite. suite >>= λ all. ok (run_tests all))
          (register_all-given (test ∷ tests) calls h),
  )

  -- A new suite, with whichever of its own tests, and calls of `Register` on it: none of them panics
  -- if and only if each gives a name and a function and no name is there twice, the names of the
  -- suite's own tests counted. `RunTests` then starts the suite's own tests and those given, in order.
  pub new_feature_test_suite-register_all :
      (skip check : Bool) (calls : List (Call T))
      → let own_calls = standard_calls skip check in
        let suite = new_feature_test_suite skip check >>= λ tests. register_all tests calls in
        (is_ok suite ≡ (complete calls && different (called own_calls ++ called calls)))
        × (is_ok suite ≡ true
            → (suite >>= λ tests. ok (run_tests tests))
              ≡ ok (some (given own_calls ++ given calls)))
  unfolding new_feature_test_suite register_all standard_calls register run_tests accepts complete
      given different
  new_feature_test_suite-register_all true true calls = with_tests _ _ calls refl
  new_feature_test_suite-register_all true false calls = with_tests _ _ calls refl
  new_feature_test_suite-register_all false true calls = with_tests _ _ calls refl
  new_feature_test_suite-register_all false false calls = with_tests _ _ calls refl
