-- ===== src/Executor/Exited.antt =====
-- The end of the container, as the goroutine that waits for it reports it: `waitContainer`
-- (executor/executor.go).
use mathlib.Core.Path.{subst}
use go_mesos_executor.Common.{zero, suc, ◌≡◌, refl, sym, ◌∙◌, ap, String, ◌<>◌, none, some}
use go_mesos_executor.Common.Exec.{
  GoError, errorf, error_text, Result, ok, err, drop_error, continue, settle, raise,
}
use go_mesos_executor.Common.Int.{ℤ, pos, negsuc}
use go_mesos_executor.Common.Text.{itoa_ℤ}
use go_mesos_executor.Container.{Containerizer}
use go_mesos_executor.Hook.{Manager}
use go_mesos_executor.Mesos.{task_failed, task_finished}
use go_mesos_executor.Executor.{
  Agent, Executor, with_outside, new_status, report_failed, throw_error, wrap,
}
use go_mesos_executor.Executor.Handlers.{exit_of, finish, wait_for_container}
use go_mesos_executor.Executor.Obliging.{IsObliging, Closed, send, close-ok}
use go_mesos_executor.Executor.Teardown.{Listens}

-- The text for an exit code.
abbrev exit_text : ℤ → String
exit_text code = "container exited (code " <> (itoa_ℤ code <> ")")

-- The task was torn down. The code 0 is no error, and the task counts as finished; any other code is
-- an error with its text, and the task counts as failed, with this text as the message.
abbrev pub Exited :
    {O : Type 0}
    → Containerizer O
    → Manager O
    → ℤ
    → Executor O
    → Result (Unit {0}) × Executor O
    → Type 0
Exited c m (pos zero) e r = (r.0 ≡ ok tt) × Closed c m task_finished none e r.1
Exited c m (pos (suc n)) e r =
    (r.0 ≡ err (errorf (exit_text (pos (suc n)))))
    × Closed c m task_failed (some (exit_text (pos (suc n)))) e r.1
Exited c m (negsuc n) e r =
    (r.0 ≡ err (errorf (exit_text (negsuc n))))
    × Closed c m task_failed (some (exit_text (negsuc n))) e r.1

module _ {O : Type 0} (c : Containerizer O) (m : Manager O) (agent : Agent O)
    (B : IsObliging c m agent) where
  throw_error-Closed :
      (x : GoError) (e : Executor O)
      → Listens e.health_checker
      → (e' : Executor O) × (throw_error c m agent {A = Unit {0}} x e ≡ (err x, e'))
        × Closed c m task_failed (some (error_text x)) e e'
  unfolding throw_error report_failed new_status
  throw_error-Closed x e l =
      let (e1, torn, e2, sent, closed) =
        close-ok c m agent B task_failed (some (error_text x)) e l in
      (
        e2,
        ap
              (λ (r : Result (Unit {0}) × Executor O).
                continue r (λ _ s. continue (drop_error (report_failed agent x s)) (λ _. raise x)))
              torn
            ∙ ap (λ (r : Result (Unit {0}) × Executor O). continue (drop_error r) (λ _. raise x))
                sent,
        closed,
      )

  finish-Closed :
      (e : Executor O)
      → Listens e.health_checker
      → (e' : Executor O) × (finish c m agent none e ≡ (ok tt, e'))
        × Closed c m task_finished none e e'
  unfolding new_status
  finish-Closed e l =
      let (e1, torn, e2, sent, closed) = close-ok c m agent B task_finished none e l in
      (
        e2,
        ap
              (λ (r : Result (Unit {0}) × Executor O).
                continue r (λ _. send c m agent B task_finished none))
              torn
            ∙ sent,
        closed,
      )

  exited :
      (code : ℤ) (e : Executor O)
      → Listens e.health_checker
      → Exited c m code e (finish c m agent (exit_of code) e)
  exited (pos zero) e l =
      let (e', did, closed) = finish-Closed e l in
      subst (Exited c m (pos 0) e) (sym did) (refl, closed)
  exited (pos (suc n)) e l =
      let (e', did, closed) = throw_error-Closed (errorf (exit_text (pos (suc n)))) e l in
      subst (Exited c m (pos (suc n)) e) (sym did) (refl, closed)
  exited (negsuc n) e l =
      let (e', did, closed) = throw_error-Closed (errorf (exit_text (negsuc n))) e l in
      subst (Exited c m (negsuc n) e) (sym did) (refl, closed)

  -- When the wait for the container is over with an exit code, where the checker listens, the stop
  -- hooks and the engine's stop come back, with or without an error, and the agent takes the calls,
  -- the whole teardown is run: the checker is told to quit, the pre-stop hooks, the engine's stop
  -- and the post-stop hooks are tried. What is left is the state behind it, but for the outside and
  -- for the report. With the code 0 the goroutine returns no error, and the
  -- status finished waits for its acknowledgment; with any other code it returns an error whose text
  -- names the code, and the status failed, with this text as its message, waits for its
  -- acknowledgment.
  pub wait_for_container-Exited :
      (e : Executor O) (o : O) (code : ℤ)
      → c.container_wait e.container_id e.outside ≡ (ok code, o)
      → Listens e.health_checker
      → Exited c m code (with_outside e o) (wait_for_container c m agent e)
  unfolding wait_for_container
  wait_for_container-Exited e o code waited l =
      subst
        (λ (r : Result ℤ × O). Exited c m code (with_outside e o) (
          settle (r.0, with_outside e r.1)
            (λ x. throw_error c m agent (wrap "error while waiting for container to stop: " x))
            (λ n. finish c m agent (exit_of n))))
        (sym waited) (exited code (with_outside e o) l)
