-- ===== src/App/Shutdown/Ends.antt =====
-- How serving ends.
use prometheus_exporter_fram.Prelude.{
  Bool, true, false, Option, none, some, ◌≡◌, ◌≢◌, ◌⊎◌, refl, inl, inr, subst,
}
use prometheus_exporter_fram.App.Shutdown.{
  ServeError, server_closed, other, Main, serving, stopped, signalled, returned, Watcher, waiting,
  shutting_down, exited, State, Step, Steps, here, then_, initial, result, cancel, server_fails,
  close, signal, finish, shut_down, leave, shut,
}

module _ {E : Type 0} where
  -- The error of `listenAndServe` is its own, or the context has ended.
  abbrev pub Caused : Bool → ServeError E → Type 0
  Caused cancelled server_closed = cancelled ≡ true
  Caused cancelled (other e) = Unit

  -- What is returned is no error after the context has ended, or the server's own.
  abbrev pub Clean : Bool → Option (ServeError E) → Type 0
  Clean cancelled none = cancelled ≡ true
  Clean cancelled (some server_closed) = ⊥
  Clean cancelled (some (other e)) = Unit

  abbrev MainOk : Bool → Bool → Main E → Type 0
  MainOk cancelled done serving = done ≡ false
  MainOk cancelled done (stopped e) = Caused cancelled e
  MainOk cancelled done (signalled e) = Caused cancelled e × (done ≡ true)
  MainOk cancelled done (returned r) = Clean cancelled r × (done ≡ true)

  -- The invariant: `Shutdown` is called only after the context has ended, and the goroutine leaves
  -- early only after `done`.
  pub record Ok (s : State E) : Type 0 where
    called_cancelled : s.shutdown_called ≡ true → s.cancelled ≡ true
    main_ok : MainOk s.cancelled s.done s.main
    exited_why : s.watcher ≡ exited → (s.done ≡ true) ⊎ (s.shutdown_called ≡ true)
    shutting_called : s.watcher ≡ shutting_down → s.shutdown_called ≡ true

  Caused-cancel : (c : Bool) (e : ServeError E) → Caused c e → Caused true e
  Caused-cancel c server_closed h = refl
  Caused-cancel c (other e) h = tt

  Clean-cancel : (c : Bool) (r : Option (ServeError E)) → Clean c r → Clean true r
  Clean-cancel c none h = refl
  Clean-cancel c (some (other e)) h = tt
  Clean-cancel c (some server_closed) h = absurd (h)

  main-cancel : (c d : Bool) (m : Main E) → MainOk c d m → MainOk true d m
  main-cancel c d serving h = h
  main-cancel c d (stopped e) h = Caused-cancel c e h
  main-cancel c d (signalled e) (h, k) = (Caused-cancel c e h, k)
  main-cancel c d (returned r) (h, k) = (Clean-cancel c r h, k)

  result-Clean : (c : Bool) (e : ServeError E) → Caused c e → Clean c (result c e)
  unfolding result
  result-Clean true server_closed h = refl
  result-Clean false server_closed h = absurd (cc)
  result-Clean c (other e) h = tt

  initial-Ok : Ok initial
  initial-Ok = record {
    called_cancelled = λ h. absurd (cc);
    main_ok = refl;
    exited_why = λ h. absurd (cc);
    shutting_called = λ h. absurd (cc);
  }

  main_at : (s : State E) (m : Main E) → s.main ≡ m → Ok s → MainOk s.cancelled s.done m
  main_at s m h ok = subst (MainOk s.cancelled s.done) h ok.main_ok

  step-Ok : (s t : State E) → Step s t → Ok s → Ok t
  step-Ok _ _ (cancel s) ok = record {
    called_cancelled = λ h. refl;
    main_ok = main-cancel s.cancelled s.done s.main ok.main_ok;
    exited_why = ok.exited_why;
    shutting_called = ok.shutting_called;
  }
  step-Ok _ _ (server_fails s e h) ok = record {
    called_cancelled = ok.called_cancelled;
    main_ok = tt;
    exited_why = ok.exited_why;
    shutting_called = ok.shutting_called;
  }
  step-Ok _ _ (close s h c) ok = record {
    called_cancelled = ok.called_cancelled;
    main_ok = ok.called_cancelled c;
    exited_why = ok.exited_why;
    shutting_called = ok.shutting_called;
  }
  step-Ok _ _ (signal s e h) ok = record {
    called_cancelled = ok.called_cancelled;
    main_ok = (main_at s _ h ok, refl);
    exited_why = λ k. inl refl;
    shutting_called = ok.shutting_called;
  }
  step-Ok _ _ (finish s e h) ok = record {
    called_cancelled = ok.called_cancelled;
    main_ok = (let m = main_at s _ h ok in (result-Clean s.cancelled e m.0, m.1));
    exited_why = ok.exited_why;
    shutting_called = ok.shutting_called;
  }
  step-Ok _ _ (shut_down s w c) ok = record {
    called_cancelled = λ h. c;
    main_ok = ok.main_ok;
    exited_why = λ h. inr refl;
    shutting_called = λ h. refl;
  }
  step-Ok _ _ (leave s w d) ok = record {
    called_cancelled = ok.called_cancelled;
    main_ok = ok.main_ok;
    exited_why = λ h. inl d;
    shutting_called = λ h. absurd (cc);
  }
  step-Ok _ _ (shut s w) ok = record {
    called_cancelled = ok.called_cancelled;
    main_ok = ok.main_ok;
    exited_why = λ h. inr (ok.shutting_called w);
    shutting_called = λ h. absurd (cc);
  }

  steps-Ok : (s t : State E) → Steps s t → Ok s → Ok t
  steps-Ok _ _ (here s) ok = ok
  steps-Ok _ _ (then_ s t u p q) ok = step-Ok t u q (steps-Ok s t p ok)

  append : (s t u : State E) → Steps s t → Steps t u → Steps s u
  append s _ _ p (here t) = p
  append s _ _ p (then_ t u v q r) = then_ s u v (append s t u p q) r

  -- What the function has returned, if it has.
  abbrev pub Ended : State E → Type 0
  Ended t = (r : Option (ServeError E)) × (t.main ≡ returned r) × (t.watcher ≡ exited)

  abbrev Reaches : State E → Type 0
  Reaches s = (t : State E) × Steps s t × Ended t

  from_step : (s t : State E) → Step s t → Reaches t → Reaches s
  from_step s t p (u, q, e) = (u, append s t u (then_ s s t (here s) p) q, e)

  -- The goroutine ends once the function has returned.
  watcher-ends :
      (s : State E) (r : Option (ServeError E)) (w : Watcher)
      → s.watcher ≡ w
      → s.main ≡ returned r
      → Ok s
      → Reaches s
  watcher-ends s r waiting w m ok =
      from_step s _ (leave s w (main_at s _ m ok).1) (_, here _, (r, m, refl))
  watcher-ends s r shutting_down w m ok = from_step s _ (shut s w) (_, here _, (r, m, refl))
  watcher-ends s r exited w m ok = (s, here s, (r, m, w))

  signalled-ends : (s : State E) (e : ServeError E) → s.main ≡ signalled e → Ok s → Reaches s
  signalled-ends s e m ok =
      let p = finish s e m in
      from_step s _ p (watcher-ends _ _ s.watcher refl refl (step-Ok s _ p ok))

  stopped-ends : (s : State E) (e : ServeError E) → s.main ≡ stopped e → Ok s → Reaches s
  stopped-ends s e m ok =
      let p = signal s e m in from_step s _ p (signalled-ends _ e refl (step-Ok s _ p ok))

  called-ends : (s : State E) → s.main ≡ serving → s.shutdown_called ≡ true → Ok s → Reaches s
  called-ends s m c ok =
      let p = close s m c in from_step s _ p (stopped-ends _ server_closed refl (step-Ok s _ p ok))

  serving-ends :
      (s : State E) (w : Watcher)
      → s.watcher ≡ w
      → s.main ≡ serving
      → s.cancelled ≡ true
      → Ok s
      → Reaches s
  serving-ends s waiting w m c ok =
      let p = shut_down s w c in from_step s _ p (called-ends _ m refl (step-Ok s _ p ok))
  serving-ends s shutting_down w m c ok = called-ends s m (ok.shutting_called w) ok
  serving-ends s exited w m c ok = elim (ok.exited_why w) [
    | inl d ↦ absurd (let open_ = main_at s _ m ok in cc)
    | inr called ↦ called-ends s m called ok
  ]

  -- From the start, whatever the order of the steps: what the function returns is no error, after the
  -- context has ended, or the server's own error, never `ErrServerClosed`.
  pub returns-Clean :
      (t : State E) (r : Option (ServeError E))
      → Steps initial t
      → t.main ≡ returned r
      → Clean t.cancelled r
  returns-Clean t r p h = (main_at t _ h (steps-Ok initial t p initial-Ok)).0

  ends :
      (s : State E) (m : Main E)
      → s.main ≡ m
      → (s.cancelled ≡ true) ⊎ (m ≢ serving)
      → Ok s
      → Reaches s
  ends s serving m (inl c) ok = serving-ends s s.watcher refl m c ok
  ends s serving m (inr n) ok = absurd (n refl)
  ends s (stopped e) m h ok = stopped-ends s e m ok
  ends s (signalled e) m h ok = signalled-ends s e m ok
  ends s (returned r) m h ok = watcher-ends s r s.watcher refl m ok

  -- Once the context has ended, or `listenAndServe` has returned: from every state that can be
  -- reached, there are steps to one in which the function has returned and the goroutine has ended.
  pub listen_and_serve_ends :
      (s : State E)
      → Steps initial s
      → (s.cancelled ≡ true) ⊎ (s.main ≢ serving)
      → (t : State E) × Steps s t × Ended t
  listen_and_serve_ends s p h = ends s s.main refl h (steps-Ok initial s p initial-Ok)
