-- ===== src/Tests/StartRuns.antt =====
-- The start and the end of an exporter whose features, registries and contexts are numbers.
use prometheus_exporter_fram.Prelude.{ℕ, true, false, none, some, List, [], ◌∷◌, ◌≡◌, refl, inl, ok}
use prometheus_exporter_fram.Text.{
  Text, codes, trim_space, is_space, contains_any, has_prefix, contains,
}
use prometheus_exporter_fram.Report.{opaque}
use prometheus_exporter_fram.App.Names.{Config}
use prometheus_exporter_fram.App.Startup.{FeatureOps}
use prometheus_exporter_fram.App.CommandLine.{Libraries, run_cli_context}
use prometheus_exporter_fram.App.Shutdown.{
  State, Steps, here, then_, initial, cancel, shut_down, close, signal, finish, server_closed,
  stopped, signalled, returned, shutting_down, result,
}
use prometheus_exporter_fram.App.Shutdown.Ends.{Ended, Clean, returns-Clean, listen_and_serve_ends}

-- A feature starts its own number, and 9 fails.
abbrev ops : FeatureOps ℕ ℕ ℕ (List ℕ) ℕ ℕ
ops = record {
  feature_name = λ f. f ∷ [];
  type_name = λ f. codes "feature";
  register_collectors = λ f c r. (f, f ∷ r, (f, c.context) ∷ [], none);
  runtime_config = λ f. (f, opaque f ∷ []);
}

abbrev libraries : Libraries ℕ ℕ
libraries = record {
  parse_request_uri = λ t. ok (record { raw_query = []; fragment = [] });
  split_host_port = λ t. some ([], codes "9900");
  parse = λ address path features args.
      ok (record { metrics_path = path; enable_pprof = false; features = features });
}

abbrev config : Config ℕ
config = record {
  name = [];
  namespace = codes "demo";
  description = [];
  default_listen_address = [];
  default_metrics_path = [];
  features = some 4 ∷ none ∷ some 5 ∷ [];
}

abbrev with_name : ℕ → Text → ℕ
with_name logger name = logger

abbrev base : Text → List ℕ
base namespace = []

started_both :
    (run_cli_context ops with_name base libraries 1 0 config []).0.started ≡ (4, 1) ∷ (5, 1) ∷ []
unfolding run_cli_context trim_space is_space contains_any has_prefix contains
started_both = refl

-- The context ends while the server serves.
abbrev cancelled : State ℕ
cancelled = record (initial {E = ℕ}) { cancelled = true }

abbrev cancelled_steps : Steps (initial {E = ℕ}) cancelled
cancelled_steps = then_ initial initial cancelled (here initial) (cancel initial)

listen_and_serve_ends_example : (t : State ℕ) × Steps cancelled t × Ended t
listen_and_serve_ends_example = listen_and_serve_ends cancelled cancelled_steps (inl refl)

-- The function has returned no error, and `Shutdown` has not ended yet.
abbrev early : State ℕ
early = record {
  cancelled = true;
  done = true;
  shutdown_called = true;
  main = returned none;
  watcher = shutting_down;
}

abbrev shut_state : State ℕ
shut_state = record cancelled { watcher = shutting_down; shutdown_called = true }

abbrev closed_state : State ℕ
closed_state = record shut_state { main = stopped server_closed }

abbrev signalled_state : State ℕ
signalled_state = record shut_state { main = signalled server_closed; done = true }

early_steps : Steps (initial {E = ℕ}) early
unfolding result
early_steps =
    then_ initial signalled_state early
      (then_ initial closed_state signalled_state
        (then_ initial shut_state closed_state
          (then_ initial cancelled shut_state cancelled_steps (shut_down cancelled refl refl))
          (close shut_state refl refl))
        (signal closed_state server_closed refl))
      (finish signalled_state server_closed refl)

returns-Clean_example : Clean {E = ℕ} true none
returns-Clean_example = returns-Clean early none early_steps refl
