-- ===== src/App/Shutdown.antt =====
-- exporter/internal/app/server.go: `listenAndServeContext`, as the steps of the main function and of
-- the goroutine that waits for the context. `E` are the server's own errors. As the documentation of
-- net/http has it, `ListenAndServe` returns `ErrServerClosed` once `Shutdown` has been called.
pub mod Ends
use prometheus_exporter_fram.Prelude.{
  Bool, true, false, ◌&&◌, Option, none, some, ◌≡◌, if◌then◌else◌,
}

pub data ServeError (E : Type 0) : Type 0 where
  server_closed : ServeError E
  other : E → ServeError E

-- Where the function is: in `listenAndServe`, after it, after `close(done)`, or returned.
pub data Main (E : Type 0) : Type 0 where
  serving : Main E
  stopped : ServeError E → Main E
  signalled : ServeError E → Main E
  returned : Option (ServeError E) → Main E

-- Where the goroutine is: in its `select`, in `Shutdown`, or at its end.
pub data Watcher : Type 0 where
  waiting : Watcher
  shutting_down : Watcher
  exited : Watcher

-- Whether the context and `done` are closed, whether `Shutdown` was called, and the two.
pub record State (E : Type 0) : Type 0 where
  pub cancelled : Bool
  pub done : Bool
  pub shutdown_called : Bool
  pub main : Main E
  pub watcher : Watcher

abbrev pub is_closed : {E : Type 0} → ServeError E → Bool
is_closed server_closed = true
is_closed (other e) = false

-- what is returned for the error of `listenAndServe`
unfoldable pub result : {E : Type 0} → Bool → ServeError E → Option (ServeError E)
result cancelled e = if is_closed e && cancelled then none else some e

abbrev pub initial : {E : Type 0} → State E
initial = record {
  cancelled = false;
  done = false;
  shutdown_called = false;
  main = serving;
  watcher = waiting;
}

pub data Step {E : Type 0} : State E → State E → Type 0 where
  -- the context ends
  cancel : (s : State E) → Step s (record s { cancelled = true })
  -- `listenAndServe` returns its own error, or is closed
  server_fails :
      (s : State E) (e : E) → s.main ≡ serving → Step s (record s { main = stopped (other e) })
  close :
      (s : State E)
      → s.main ≡ serving
      → s.shutdown_called ≡ true
      → Step s (record s { main = stopped server_closed })
  -- `close(done)`, then the test and the return
  signal :
      (s : State E) (e : ServeError E)
      → s.main ≡ stopped e
      → Step s (record s { main = signalled e; done = true })
  finish :
      (s : State E) (e : ServeError E)
      → s.main ≡ signalled e
      → Step s (record s { main = returned (result s.cancelled e) })
  -- the cases of `select`, and the end of `Shutdown`, which has a timeout
  shut_down :
      (s : State E)
      → s.watcher ≡ waiting
      → s.cancelled ≡ true
      → Step s (record s { watcher = shutting_down; shutdown_called = true })
  leave :
      (s : State E) → s.watcher ≡ waiting → s.done ≡ true → Step s (record s { watcher = exited })
  shut : (s : State E) → s.watcher ≡ shutting_down → Step s (record s { watcher = exited })

pub data Steps {E : Type 0} : State E → State E → Type 0 where
  here : (s : State E) → Steps s s
  then_ : (s t u : State E) → Steps s t → Step t u → Steps s u
