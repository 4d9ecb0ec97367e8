-- ===== src/Tests/RegistrationRuns.antt =====
-- A registry of numbers that refuses what it holds, but for 7, which is unchecked, and 9.
use prometheus_exporter_fram.Prelude.{
  ℕ, ◌+◌, ◌≡◌, refl, List, [], ◌∷◌, some, none, pos, nat_eq, nat_beq_iff, true, false, Bool, not,
  ◌&&◌, ==_refl, ◌||◌, ok, err, Result, if◌then◌else◌, arith, or_else, ◌==◌, ◌⊎◌,
}
use prometheus_exporter_fram.Text.{codes}
use prometheus_exporter_fram.Registration.{
  Registry, register_collectors, register_loop, roll_back, register_and_start_collectors,
}
use prometheus_exporter_fram.Registration.Rollback.{
  elem, present, AllOrNone, Starts, register_collectors-AllOrNone, register_and_start-Starts,
}
use prometheus_exporter_fram.FeatureKit.{
  Feature, FeatureSpec, FeatureContext, new_feature, prepare_config,
}
use prometheus_exporter_fram.FeatureKit as FeatureKit
use prometheus_exporter_fram.FeatureKit.Registered.{OneOrNone, register_feature-OneOrNone}
use prometheus_exporter_fram.FeatureKit.Prepared.{
  Call, parse_flags, register, report, after_calls, prepare_config-after_calls,
}
use prometheus_exporter_fram.FeatureKit.Snapshot.{Framework}
use prometheus_exporter_fram.FeatureKit.Framework.{feature_ops, new_registry_context-features}
use prometheus_exporter_fram.App.Startup.{new_registry_context}
use prometheus_exporter_fram.App.Startup.Held.{Kept}
use prometheus_exporter_fram.App.Names.{non_empty, default_exporter_name}

abbrev register_number : List ℕ → ℕ → Result ℕ (List ℕ)
register_number r c = if (elem c r && not (c == 7)) || c == 9 then err c else ok (c ∷ r)

-- the number 7 is unchecked, and registered again whenever it is given
abbrev is_checked : ℕ → Bool
is_checked c = not (c == 7)

register_number-new :
    (r r' : List ℕ) (c d : ℕ)
    → register_number r c ≡ ok r'
    → (is_checked c && is_checked d && c == d) ≡ true
    → elem d r ≡ false
register_number-new r r' c d h k = ground (arith, nat_beq_iff c d)

elem-register_number :
    (r r' : List ℕ) (c d : ℕ)
    → register_number r c ≡ ok r'
    → elem d r' ≡ (if c == d then true else elem d r)
elem-register_number r r' c d h = ground arith

abbrev remove : List ℕ → ℕ → List ℕ
remove [] c = []
remove (x ∷ r) c = let rest = remove r c in if x == c then rest else x ∷ rest

elem-remove : (r : List ℕ) (c d : ℕ) → elem d (remove r c) ≡ (if c == d then false else elem d r)
elem-remove [] c d = ground arith
elem-remove (x ∷ r) c d = ground (arith, elem-remove r c d, nat_beq_iff x c, nat_beq_iff x d)

abbrev drop_number : List ℕ → ℕ → List ℕ
drop_number r c = if is_checked c then remove r c else r

elem-drop_number :
    (r : List ℕ) (c d : ℕ)
    → elem d (drop_number r c)
      ≡ (if is_checked c && is_checked d && c == d then false else elem d r)
elem-drop_number r c d = ground (arith, elem-remove r c d, nat_beq_iff c d)

abbrev background : ℕ
background = 0

abbrev numbers : Registry (List ℕ) ℕ ℕ
numbers = record {
  register = register_number;
  unregister = drop_number;
  holds = λ r c. elem c r;
  checked = is_checked;
  equal = λ c d. c == d;
  equal_refl = λ c. ==_refl c;
  register_new = register_number-new;
  holds-register = elem-register_number;
  holds-unregister = elem-drop_number;
}

register_collectors-AllOrNone_example :
    AllOrNone numbers
      (4 ∷ [])
      (present (some 1 ∷ some 7 ∷ none ∷ some 9 ∷ []))
      (register_collectors numbers (4 ∷ []) (some 1 ∷ some 7 ∷ none ∷ some 9 ∷ []))
register_collectors-AllOrNone_example =
    register_collectors-AllOrNone numbers (4 ∷ []) (some 1 ∷ some 7 ∷ none ∷ some 9 ∷ [])

register_and_start-Starts_example :
    Starts numbers
      (4 ∷ [])
      (present (some 1 ∷ none ∷ some 2 ∷ []))
      (or_else none background)
      (register_and_start_collectors numbers background none (4 ∷ []) (some 1 ∷ none ∷ some 2 ∷ []))
register_and_start-Starts_example =
    register_and_start-Starts numbers background none (4 ∷ []) (some 1 ∷ none ∷ some 2 ∷ [])

-- After the failure the unchecked number is still there.
unchecked_stays :
    register_collectors numbers (4 ∷ []) (some 1 ∷ some 7 ∷ some 9 ∷ []) ≡ (7 ∷ 4 ∷ [], some 9)
unfolding register_collectors register_loop roll_back
unchecked_stays = refl

-- A feature whose configuration is a number, prepared by adding one; its collector is the number 5.
abbrev feature : Feature ℕ ℕ ℕ ℕ ℕ
feature = record {
  feature_name = codes "demo";
  default_refresh_interval = pos 60;
  refresh_interval = pos 30;
  config = 7;
  prepared_config = none;
  functions = record {
    prepare_config_func = some (λ name c. (c + 1, none));
    validate_config_func = none;
    new_snapshotter_func = none;
    new_collector_func = some (λ name x n d. ok (some 5));
    runtime_config_func = none;
  };
}

abbrev at_context : FeatureContext ℕ ℕ
at_context = record { context = some 3; framework = 0 }

register_feature-OneOrNone_example :
    let p = FeatureKit.register_collectors numbers 0 feature at_context (4 ∷ []) in
    OneOrNone numbers 0 (4 ∷ []) (some 3) (p.1, p.2, p.3)
register_feature-OneOrNone_example =
    register_feature-OneOrNone numbers 0 feature at_context (4 ∷ [])

abbrev codes_of : ℕ → List ℕ
codes_of e = e ∷ []

abbrev calls : List (Call ℕ ℕ (List ℕ) ℕ)
calls = parse_flags 20 (pos 10) ∷ register at_context (4 ∷ []) ∷ report ∷ []

prepare_config-after_calls_example :
    prepare_config
      (after_calls numbers 0 codes_of calls (record feature { prepared_config = some 8 }))
    ≡ (after_calls numbers 0 codes_of calls (record feature { prepared_config = some 8 }), 8, none)
unfolding prepare_config
prepare_config-after_calls_example =
    prepare_config-after_calls numbers 0 codes_of calls feature
      (record feature { prepared_config = some 8 }) 8 refl

-- Features of the framework: one has the collector 5, the next is refused 9.
abbrev framework_feature : ℕ → Feature ℕ ℕ ℕ (Framework ℕ) ℕ
framework_feature k = record {
  feature_name = codes "demo";
  default_refresh_interval = pos 60;
  refresh_interval = pos 30;
  config = 7;
  prepared_config = none;
  functions = record {
    prepare_config_func = none;
    validate_config_func = none;
    new_snapshotter_func = none;
    new_collector_func = some (λ name x n d. ok (some k));
    runtime_config_func = none;
  };
}

abbrev with_name : ℕ → List ℕ → ℕ
with_name logger name = logger

abbrev base : List ℕ → List ℕ
base namespace = 4 ∷ []

new_registry_context-features_example :
    let x =
      new_registry_context
        (feature_ops {L = ℕ} numbers background codes_of (codes "feature"))
        with_name
        base
        3
        0
        (codes "demo")
        (some (framework_feature 5) ∷ none ∷ some (framework_feature 9) ∷ []) in
    ((x.registry ≡ none) × (x.started ≡ []))
    ⊎ Kept numbers.holds 3 (base (non_empty (codes "demo") default_exporter_name)) x
new_registry_context-features_example =
    new_registry_context-features numbers background codes_of (codes "feature") with_name base 3 0
      (codes "demo") (some (framework_feature 5) ∷ none ∷ some (framework_feature 9) ∷ [])
