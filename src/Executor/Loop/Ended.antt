-- ===== src/Executor/Loop/Ended.antt =====
-- How `Execute` (executor/executor.go) ends, in every interleaving with the other goroutines.
use mathlib.Core.Path.{subst}
use go_mesos_executor.Common.{◌≡◌, ◌≢◌, refl, String, Bool, true, false, none, some, if◌then◌else◌}
use go_mesos_executor.Common.Exec.{
  GoError, unexpected_eof, errorf, Result, ok, err, fault, Exec, settle, drop_error, continue,
}
use go_mesos_executor.Container.{Containerizer}
use go_mesos_executor.Hook.{Manager}
use go_mesos_executor.Executor.{Agent, Executor, health_check, wait_container, outside}
use go_mesos_executor.Executor.Handlers.{handle_kill, handle_event, get_unacked_updates}
use go_mesos_executor.Executor.Loop.{
  Phase, subscribing, handling, finished, on_error, subscribe_step, event_step, main_step, Step,
  main, health_changed, health_ended, health_exited, checker_returned, container_stopped, signalled,
  without_goroutine, with_returned, Reach, here, next,
}
use go_mesos_executor.Executor.Loop.Shutdown.{IsShutdown, handle_kill-IsShutdown, Step-IsShutdown}

module _ {O : Type 0} (c : Containerizer O) (m : Manager O) (agent : Agent O) where
  -- `Execute` has returned only if the flag is set, and no error that it returned is the end of
  -- the stream.
  abbrev pub Ended : Phase × Executor O → Type 0
  Ended (subscribing, e) = Unit
  Ended (handling, e) = Unit
  Ended (finished none, e) = IsShutdown e
  Ended (finished (some x), e) = IsShutdown e × (x ≢ unexpected_eof)

  abbrev EndedAt : Result Phase × Executor O → Type 0
  EndedAt (ok p, e) = Ended (p, e)
  EndedAt (err x, e) = Unit
  EndedAt (fault x, e) = Unit

  killed-Ended :
      (text : String) (r : Result (Unit {0}) × Executor O)
      → IsShutdown r.1
      → EndedAt (continue (drop_error r) (λ _ e. (ok (finished (some (errorf text))), e)))
  killed-Ended text (ok u, e) h = (h, λ q. cc)
  killed-Ended text (err x, e) h = (h, λ q. cc)
  killed-Ended text (fault x, e) h = tt

  on_error-Ended : (x : GoError) (e : Executor O) → EndedAt (on_error c m agent x e)
  unfolding on_error
  on_error-Ended unexpected_eof e = tt
  on_error-Ended (errorf text) e =
      killed-Ended text (handle_kill c m agent e) (handle_kill-IsShutdown c m agent e)

  settle-Ended :
      {A : Type 0} (r : Result A × Executor O) (g : GoError → Exec (Executor O) Phase)
      (f : A → Exec (Executor O) Phase)
      → ((x : GoError) (e : Executor O) → EndedAt (g x e))
      → ((a : A) (e : Executor O) → EndedAt (f a e))
      → EndedAt (settle r g f)
  settle-Ended (ok a, e) g f k h = h a e
  settle-Ended (err x, e) g f k h = k x e
  settle-Ended (fault x, e) g f k h = tt

  event_step-Ended : (e : Executor O) → EndedAt (event_step c m agent e)
  unfolding event_step
  event_step-Ended e =
      settle-Ended (outside agent.decode e) _ _ on_error-Ended
        (λ event e1. settle-Ended (handle_event c m agent event e1) _ _ on_error-Ended (λ _ _. tt))

  subscribe_step-Ended : (e : Executor O) → EndedAt (subscribe_step c m agent e)
  unfolding subscribe_step get_unacked_updates
  subscribe_step-Ended e = settle-Ended (outside (agent.do_call _) e) _ _ (λ _ _. tt) (λ _ _. tt)

  if-Ended :
      (b : Bool) (x y : Result Phase × Executor O)
      → (b ≡ true → EndedAt x)
      → EndedAt y
      → EndedAt (if b then x else y)
  if-Ended true x y h k = h refl
  if-Ended false x y h k = k

  main_step-Ended : (p : Phase) (e : Executor O) → Ended (p, e) → EndedAt (main_step c m agent p e)
  unfolding main_step
  main_step-Ended subscribing e h =
      if-Ended e.is_shutdown (ok (finished none), e) (subscribe_step c m agent e) (λ set. set)
        (subscribe_step-Ended e)
  main_step-Ended handling e h =
      if-Ended e.is_shutdown (ok subscribing, e) (event_step c m agent e) (λ _. tt)
        (event_step-Ended e)
  main_step-Ended (finished none) e h = h
  main_step-Ended (finished (some x)) e h = h

  still-Ended :
      (p : Phase) (e e' : Executor O)
      → (IsShutdown e → IsShutdown e')
      → Ended (p, e)
      → Ended (p, e')
  still-Ended subscribing e e' k h = tt
  still-Ended handling e e' k h = tt
  still-Ended (finished none) e e' k h = k h
  still-Ended (finished (some x)) e e' k h = (k h.0, h.1)

  Step-Ended : {s t : Phase × Executor O} → Step c m agent s t → Ended s → Ended t
  Step-Ended (main {p} {e} eq) h =
      subst (λ (y : Result Phase × Executor O). EndedAt y) eq (main_step-Ended p e h)
  Step-Ended (health_changed {p} {e} {e'} b g eq) h =
      still-Ended p e e' (Step-IsShutdown c m agent (health_changed {p = p} b g eq)) h
  Step-Ended (health_ended {p} {e} {e'} g eq) h =
      still-Ended p e (without_goroutine health_check e')
        (Step-IsShutdown c m agent (health_ended {p = p} g eq)) h
  Step-Ended (health_exited {p} {e} {k} g at quits) h =
      still-Ended p e (without_goroutine health_check (with_returned k e)) (λ s. s) h
  Step-Ended (checker_returned {p} {e} {k} at listens) h =
      still-Ended p e (with_returned k e) (λ s. s) h
  Step-Ended (container_stopped {p} {e} {e'} g eq) h =
      still-Ended p e (without_goroutine wait_container e')
        (Step-IsShutdown c m agent (container_stopped {p = p} g eq)) h
  Step-Ended (signalled {p} {e} {e'} eq) h =
      still-Ended p e e' (Step-IsShutdown c m agent (signalled {p = p} eq)) h

  -- In every interleaving of the main loop with the other goroutines, from before a subscription:
  -- if `Execute` has returned, the flag `Shutdown` is set, and if it returned an error, that is not
  -- the end of the stream.
  pub Reach-Ended :
      {e : Executor O} {t : Phase × Executor O} → Reach c m agent (subscribing, e) t → Ended t
  Reach-Ended here = tt
  Reach-Ended (next r st) = Step-Ended st (Reach-Ended r)
