-- ===== src/Executor/Loop/Stable/Steps.antt =====
-- The loop of `Execute` and the goroutines (executor/executor.go) as nothing but the changes of
-- `Stable`.
use mathlib.Core.Path.{subst}
use go_mesos_executor.Common.{◌≡◌, refl, Bool, true, false, Option, none, some, if◌then◌else◌}
use go_mesos_executor.Common.Exec.{
  GoError, unexpected_eof, errorf, Result, ok, err, fault, attempt, settle, continue-preserves,
  settle-preserves, drop_error-preserves,
}
use go_mesos_executor.Container.{Containerizer}
use go_mesos_executor.Hook.{Manager}
use go_mesos_executor.Mesos.{Event}
use go_mesos_executor.Executor.{Agent, Executor, outside, with_outside, update_status, tear_down}
use go_mesos_executor.Executor.Handlers.{
  handle_kill, handle_event, exit_of, finish, wait_for_container, get_unacked_updates,
}
use go_mesos_executor.Executor.Loop.{
  Phase, subscribing, handling, finished, on_error, subscribe_step, event_step, main_step,
  update_health, report_health, health_done, handle_stop_signal, Step, main, health_changed,
  health_ended, health_exited, checker_returned, container_stopped, signalled, Reach, here, next,
}
use go_mesos_executor.Executor.Loop.Stable.{
  Stable, Keeps, tear_down-Keeps, throw_error-Keeps, handle_kill-Keeps, handle_event-Keeps,
  or_throw-Keeps, update_status-Keeps, with_status-Keeps,
}

module _ {O : Type 0} (c : Containerizer O) (m : Manager O) (agent : Agent O)
    {P : Executor O → Type 0} (st : Stable agent P) where
  open st use {sharing, checking, starting}

  finish-Keeps : (o : Option GoError) → Keeps c m agent st (finish c m agent o)
  finish-Keeps (some x) e h = throw_error-Keeps c m agent st (Unit {0}) x e h
  finish-Keeps none e h =
      continue-preserves P (tear_down c m e) _ (tear_down-Keeps c m agent st e h) (λ _ e1 h1.
        with_status-Keeps c m agent st (λ s. update_status agent _)
          (λ s. update_status-Keeps c m agent st _) e1 h1)

  wait_for_container-Keeps : Keeps c m agent st (wait_for_container c m agent)
  unfolding wait_for_container
  wait_for_container-Keeps e h =
      or_throw-Keeps c m agent st (outside (c.container_wait e.container_id)) _ _
        (λ s q. sharing s _ q) (λ code. finish-Keeps (exit_of code)) e h

  update_health-Keeps : (b : Bool) → Keeps c m agent st (update_health c m agent b)
  unfolding update_health
  update_health-Keeps b =
      with_status-Keeps c m agent st (λ s. update_status agent _)
        (λ s. update_status-Keeps c m agent st _)

  on_error-Keeps : (x : GoError) → Keeps c m agent st (on_error c m agent x)
  unfolding on_error
  on_error-Keeps unexpected_eof e h = h
  on_error-Keeps (errorf text) e h =
      continue-preserves P (attempt (handle_kill c m agent) e) _
        (drop_error-preserves P (handle_kill c m agent e) (handle_kill-Keeps c m agent st e h))
        (λ _ e1 h1. h1)

  subscribe_step-Keeps : Keeps c m agent st (subscribe_step c m agent)
  unfolding subscribe_step get_unacked_updates
  subscribe_step-Keeps e h =
      settle-preserves P (outside (agent.do_call _) e) _ _ (sharing e _ h) (λ _ _ q. q) (λ _ _ q. q)

  decoded-Keeps :
      (e : Executor O) (r : Result Event × O)
      → agent.decode e.outside ≡ r
      → P e
      → P
          (settle
            (r.0, with_outside e r.1)
            (on_error c m agent)
            (λ event e1.
              settle
                (handle_event c m agent event e1)
                (on_error c m agent)
                (λ _ e2. (ok handling, e2)))).1
  decoded-Keeps e (ok event, o) eq h =
      settle-preserves P (handle_event c m agent event (with_outside e o)) _ _
        (handle_event-Keeps c m agent st event _ o eq _ (sharing e _ h)) on_error-Keeps (λ _ _ q. q)
  decoded-Keeps e (err x, o) eq h = on_error-Keeps x _ (sharing e _ h)
  decoded-Keeps e (fault x, o) eq h = sharing e _ h

  event_step-Keeps : Keeps c m agent st (event_step c m agent)
  unfolding event_step
  event_step-Keeps e h = decoded-Keeps e _ refl h

  if-Keeps : (b : Bool) (x y : Result Phase × Executor O) → P x.1 → P y.1 → P (if b then x else y).1
  if-Keeps true x y p q = p
  if-Keeps false x y p q = q

  main_step-Keeps : (p : Phase) → Keeps c m agent st (main_step c m agent p)
  unfolding main_step
  main_step-Keeps subscribing e h = if-Keeps e.is_shutdown _ _ h (subscribe_step-Keeps e h)
  main_step-Keeps handling e h = if-Keeps e.is_shutdown _ _ h (event_step-Keeps e h)
  main_step-Keeps (finished r) e h = h

  came :
      {A : Type 0} {x : Result A × Executor O} {r : Result A} {e : Executor O}
      → x ≡ (r, e)
      → P x.1
      → P e
  came {A} eq h = subst (λ (y : Result A × Executor O). P y.1) eq h

  pub Step-Keeps : {s t : Phase × Executor O} → Step c m agent s t → P s.1 → P t.1
  unfolding report_health health_done handle_stop_signal
  Step-Keeps (main {p} {e} eq) h = came eq (main_step-Keeps p e h)
  Step-Keeps (health_changed {e} b g eq) h =
      came eq (drop_error-preserves P (update_health c m agent b e) (update_health-Keeps b e h))
  Step-Keeps (health_ended {e} {e'} g eq) h = starting e' _ (
      came eq
        (drop_error-preserves P (handle_kill c m agent e) (handle_kill-Keeps c m agent st e h)))
  Step-Keeps (health_exited {e} g at quits) h = starting _ _ (checking e _ h)
  Step-Keeps (checker_returned {e} at listens) h = checking e _ h
  Step-Keeps (container_stopped {e} {e'} g eq) h =
      starting e' _ (came eq (wait_for_container-Keeps e h))
  Step-Keeps (signalled {e} eq) h =
      came eq
        (drop_error-preserves P (handle_kill c m agent e) (handle_kill-Keeps c m agent st e h))

  pub Reach-Keeps : {s t : Phase × Executor O} → Reach c m agent s t → P s.1 → P t.1
  Reach-Keeps here h = h
  Reach-Keeps (next r step) h = Step-Keeps step (Reach-Keeps r h)
