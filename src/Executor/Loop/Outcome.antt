-- ===== src/Executor/Loop/Outcome.antt =====
-- What one event does to `Execute` (executor/executor.go), its errors included.
use mathlib.Core.Path.{subst}
use go_mesos_executor.Common.{◌≡◌, sym, ◌∙◌, ap, Bool, false, ◌⊎◌, inl, inr, none, if◌then◌else◌}
use go_mesos_executor.Common.Exec.{unexpected_eof, Result, ok, err, continue, settle, pure}
use go_mesos_executor.Container.{Containerizer}
use go_mesos_executor.Hook.{Manager}
use go_mesos_executor.Mesos.{Event, kill, shutdown}
use go_mesos_executor.Executor.{Agent, Executor, with_outside}
use go_mesos_executor.Executor.Handlers.{handle_event}
use go_mesos_executor.Executor.Loop.{
  Phase, subscribing, handling, finished, on_error, subscribe_step, event_step, main_step,
  main_steps,
}
use go_mesos_executor.Executor.Loop.Shutdown.{IsShutdown, handle_kill-IsShutdown}

module _ {O : Type 0} (c : Containerizer O) (m : Manager O) (agent : Agent O) where
  -- The step for an event that was read is what its handler leaves.
  main_step-event :
      (event : Event) (e : Executor O) (o : O)
      → e.is_shutdown ≡ false
      → agent.decode e.outside ≡ (ok event, o)
      → main_step c m agent handling e
        ≡ settle
            (handle_event c m agent event (with_outside e o))
            (on_error c m agent)
            (λ _. pure handling)
  unfolding main_step
  main_step-event event e o up read =
      ap (λ (b : Bool). if b then (ok subscribing, e) else event_step c m agent e) up
      ∙ ap
          (λ (r : Result Event × O).
            settle {B = Phase} (r.0, with_outside e r.1) (on_error c m agent)
              (λ ev e1.
                settle (handle_event c m agent ev e1) (on_error c m agent) (λ _. pure handling)))
          read

  pub main_step-handled :
      (event : Event) (e : Executor O) (o : O) {r : Result (Unit {0}) × Executor O}
      → e.is_shutdown ≡ false
      → agent.decode e.outside ≡ (ok event, o)
      → handle_event c m agent event (with_outside e o) ≡ r
      → main_step c m agent handling e ≡ settle r (on_error c m agent) (λ _. pure handling)
  main_step-handled event e o up read did =
      main_step-event event e o up read
      ∙ ap
          (λ (r : Result (Unit {0}) × Executor O).
            settle {B = Phase} r (on_error c m agent) (λ _. pure handling))
          did

  -- The end of the stream, met while an event is handled, makes the executor subscribe again: it
  -- kills nothing and keeps the state that the handler left.
  pub main_step-eof :
      (event : Event) (e e' : Executor O) (o : O)
      → e.is_shutdown ≡ false
      → agent.decode e.outside ≡ (ok event, o)
      → handle_event c m agent event (with_outside e o) ≡ (err unexpected_eof, e')
      → main_step c m agent handling e ≡ (ok subscribing, e')
  unfolding on_error
  main_step-eof event e e' o up read failed = main_step-handled event e o up read failed

  main_step_down :
      (e : Executor O) → IsShutdown e → main_step c m agent handling e ≡ (ok subscribing, e)
  unfolding main_step
  main_step_down e h =
      ap (λ (b : Bool). if b then (ok subscribing, e) else event_step c m agent e) h

  main_step_over :
      (e : Executor O) → IsShutdown e → main_step c m agent subscribing e ≡ (ok (finished none), e)
  unfolding main_step
  main_step_over e h =
      ap (λ (b : Bool). if b then (ok (finished none), e) else subscribe_step c m agent e) h

  main_steps_down :
      (e : Executor O) → IsShutdown e → main_steps c m agent 2 handling e ≡ (ok (finished none), e)
  unfolding main_steps
  main_steps_down e h =
      ap (λ (r : Result Phase × Executor O). continue r (main_steps c m agent 1))
        (main_step_down e h)
      ∙ ap (λ (r : Result Phase × Executor O). continue r (main_steps c m agent 0))
          (main_step_over e h)

  handle_event-IsShutdown :
      (event : Event) (e : Executor O)
      → (event ≡ kill) ⊎ (event ≡ shutdown)
      → IsShutdown (handle_event c m agent event e).1
  unfolding handle_event
  handle_event-IsShutdown event e (inl q) =
      subst (λ ev. IsShutdown (handle_event c m agent ev e).1) (sym q)
        (handle_kill-IsShutdown c m agent e)
  handle_event-IsShutdown event e (inr q) =
      subst (λ ev. IsShutdown (handle_event c m agent ev e).1) (sym q)
        (handle_kill-IsShutdown c m agent e)

  -- A kill or shutdown event whose handler returns no error ends `Execute` without an error, with
  -- no further call of the agent: the loop is over after the step of the event and two more.
  pub main_steps-kill :
      (event : Event) (e e' : Executor O) (o : O)
      → (event ≡ kill) ⊎ (event ≡ shutdown)
      → e.is_shutdown ≡ false
      → agent.decode e.outside ≡ (ok event, o)
      → handle_event c m agent event (with_outside e o) ≡ (ok tt, e')
      → main_steps c m agent 3 handling e ≡ (ok (finished none), e')
  unfolding main_steps
  main_steps-kill event e e' o ends up read did =
      ap (λ (r : Result Phase × Executor O). continue r (main_steps c m agent 2))
        (main_step-handled event e o up read did)
      ∙ main_steps_down e' (
          subst (λ (r : Result (Unit {0}) × Executor O). IsShutdown r.1) did
            (handle_event-IsShutdown event (with_outside e o) ends))
