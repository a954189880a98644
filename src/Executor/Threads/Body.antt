-- ===== src/Executor/Threads/Body.antt =====
-- The routines of Executor/Threads, run by one goroutine with no other in between, against the
-- handlers (executor/executor.go).
use go_mesos_executor.Common.{◌≡◌, refl, sym, ◌∙◌, true, none, some}
use go_mesos_executor.Common.Exec.{
  Result, ok, err, fault, Exec, continue, continue-cong, continue_assoc, pure, attempt, drop_error,
  ◌>>◌,
}
use go_mesos_executor.Container.{Containerizer}
use go_mesos_executor.Hook.{Shared, Manager, run_post_stop_hooks}
use go_mesos_executor.Executor.{
  Agent, Executor, quit_checker, stop_task, tear_down, throw_error, on_shared, outside,
  with_outside,
}
use go_mesos_executor.Executor.Handlers.{handle_kill, finish, report_killed}
use go_mesos_executor.Executor.Threads.{
  Routine, killing, ending, pre_stopping, stopping, post_stopping, perform, perform_all, stages,
  report,
}

module _ {O : Type 0} (c : Containerizer O) (m : Manager O) (agent : Agent O) where
  -- The code that a routine stands for.
  abbrev pub body : Routine → Exec (Executor O) (Unit {0})
  body killing = handle_kill c m agent
  body (ending x) = finish c m agent x

  right_unit : (x : Result (Unit {0}) × Executor O) → continue x (λ _ e. (ok tt, e)) ≡ x
  right_unit (ok u, e) = refl
  right_unit (err y, e) = refl
  right_unit (fault y, e) = refl

  module _ (r : Routine) (f : Exec (Executor O) (Unit {0})) where
    stop_lem :
        (x : Result (Unit {0}) × O) (e : Executor O)
        → continue
            (drop_error (x.0, with_outside e x.1))
            (λ _. perform c m agent r post_stopping >> f)
          ≡ continue
              (continue
                (drop_error (x.0, with_outside e x.1))
                (λ _. attempt (on_shared (run_post_stop_hooks m e.container_id c))))
              (λ _. f)
    unfolding perform
    stop_lem (ok u, o) e = refl
    stop_lem (err y, o) e = refl
    stop_lem (fault y, o) e = refl

    pre_lem :
        (x : Result (Unit {0}) × Shared O) (e : Executor O)
        → continue
            (drop_error (x.0, record e { shared = x.1 }))
            (λ _. perform c m agent r stopping >> (perform c m agent r post_stopping >> f))
          ≡ continue
              (continue (drop_error (x.0, record e { shared = x.1 })) (λ _.
                attempt (outside (c.container_stop e.container_id))
                >> attempt (on_shared (run_post_stop_hooks m e.container_id c))))
              (λ _. f)
    unfolding perform
    pre_lem (ok u, s) e = stop_lem _ (record e { shared = s })
    pre_lem (err y, s) e = stop_lem _ (record e { shared = s })
    pre_lem (fault y, s) e = refl

    torn :
        (e : Executor O)
        → continue (quit_checker e) (λ _.
          perform c m agent r pre_stopping
          >> (perform c m agent r stopping >> (perform c m agent r post_stopping >> f)))
          ≡ continue (tear_down c m e) (λ _. f)
    unfolding perform tear_down stop_task
    torn e =
        continue-cong (quit_checker e) _ _ (λ _ e1. pre_lem _ e1)
        ∙ sym (continue_assoc (quit_checker e) _ (λ _. f))

  with_unit :
      (x : Result (Unit {0}) × Executor O) (f : Exec (Executor O) (Unit {0}))
      → continue x (λ _. f >> pure tt) ≡ continue x (λ _. f)
  with_unit x f = continue-cong x _ _ (λ _ e. right_unit (f e))

  -- Run by one goroutine with no other in between, the calls of a routine are `handleKill`, and are
  -- what `waitContainer` does with the exit code of the container.
  pub perform_all-body :
      (r : Routine) (e : Executor O) → perform_all c m agent r stages e ≡ body r e
  unfolding perform_all perform handle_kill throw_error
  perform_all-body killing e =
      torn killing (report_killed c m agent >> pure tt) (record e { is_shutdown = true })
      ∙ with_unit (tear_down c m (record e { is_shutdown = true })) (report_killed c m agent)
  perform_all-body (ending none) e =
      torn (ending none) (report c m agent (ending none) >> pure tt) e
      ∙ with_unit (tear_down c m e) (report c m agent (ending none))
  perform_all-body (ending (some x)) e =
      torn (ending (some x)) (report c m agent (ending (some x)) >> pure tt) e
      ∙ with_unit (tear_down c m e) (report c m agent (ending (some x)))
