-- ===== src/Executor/Launch.antt =====
-- `handleLaunch` (executor/executor.go) as a whole, and `throwError`.
pub mod Launched
pub mod Limits
pub mod Running
use mathlib.Core.Path.{subst}
use go_mesos_executor.Common.{◌<>◌, ◌≡◌, refl, ◌∙◌, ap, String, Option, none, some}
use go_mesos_executor.Common.Exec.{
  GoError, errorf, error_text, Result, ok, err, fault, Exec, attempt, NoFault, NoError, RaisesOnly,
  NoError-continue, RaisesOnly-continue, drop_error-NoError, drop_error, continue-err, settle-err,
}
use go_mesos_executor.Container.{Containerizer, Info}
use go_mesos_executor.Hook.{
  Manager, run_pre_create_hooks, run_pre_run_hooks, run_post_run_hooks, run_pre_stop_hooks,
  run_post_stop_hooks,
}
use go_mesos_executor.Mesos.{TaskInfo, HealthCheck}
use go_mesos_executor.Executor.{
  Agent, Executor, Checker, CheckerPhase, active, exiting, returned, quit_at, quit,
  get_memory_limit, get_cpu_shares_limit, on_shared, outside, wrap, new_status, update_status,
  quit_checker, stop_task, tear_down, report_failed, throw_error,
}
use go_mesos_executor.Executor.Handlers.{
  or_throw, start_health_check, report_running, create_and_run, handle_launch,
}

module _ {O : Type 0} (c : Containerizer O) (m : Manager O) (agent : Agent O) where
  -- The error and the state are those that `throwError` left, called with a text.
  pub record Thrown (x : GoError) (e' : Executor O) : Type 0 where
    pub text : String
    pub from : Executor O
    pub same : x ≡ errorf text
    pub thrown : throw_error c m agent {A = Unit {0}} (errorf text) from ≡ (err x, e')

  quit_at-NoError : (p : CheckerPhase) (k : Checker) (e : Executor O) → NoError (quit_at p k e).0
  quit_at-NoError active k e = tt
  quit_at-NoError exiting k e = tt
  quit_at-NoError returned k e = tt

  quit-NoError : (o : Option Checker) (e : Executor O) → NoError (quit o e).0
  quit-NoError none e = tt
  quit-NoError (some k) e = quit_at-NoError k.phase k e

  -- Teardown returns no error: it drops those of the hooks and of the containerizer.
  pub tear_down-NoError : (e : Executor O) → NoError (tear_down c m e).0
  unfolding tear_down quit_checker stop_task
  tear_down-NoError e =
      NoError-continue (quit_checker e) _ (quit-NoError e.health_checker e) (λ _ e1.
        NoError-continue (attempt (on_shared (run_pre_stop_hooks m e1.container_id c)) e1) _
          (drop_error-NoError (on_shared (run_pre_stop_hooks m e1.container_id c) e1))
          (λ _ e2.
            NoError-continue (attempt (outside (c.container_stop e1.container_id)) e2) _
              (drop_error-NoError (outside (c.container_stop e1.container_id) e2))
              (λ _ e3.
                drop_error-NoError (on_shared (run_post_stop_hooks m e1.container_id c) e3))))

  pub throw_error-RaisesOnly :
      (A : Type 0) (x : GoError) (e : Executor O)
      → RaisesOnly x (throw_error c m agent {A = A} x e).0
  unfolding throw_error
  throw_error-RaisesOnly A x e =
      RaisesOnly-continue x (tear_down c m e) _ (tear_down-NoError e) (λ _ e1.
        RaisesOnly-continue x (drop_error (report_failed agent x e1)) _
          (drop_error-NoError (report_failed agent x e1)) (λ _ e2. refl))

  -- Whatever the teardown and the agent answer, `throwError` returns no value, and if it returns it
  -- returns the error that it was given.
  pub throw_error_lem :
      (x : GoError) (e : Executor O)
      → NoFault (throw_error c m agent {A = Unit {0}} x e).0
      → (throw_error c m agent {A = Unit {0}} x e).0 ≡ err x
  throw_error_lem x e n = only _ n (throw_error-RaisesOnly (Unit {0}) x e)
    where
      only : (r : Result (Unit {0})) → NoFault r → RaisesOnly x r → r ≡ err x
      only (ok a) n h = absurd h
      only (err y) n h = ap err h
      only (fault f) n h = absurd n

  throw_error-Thrown :
      (y : GoError) (text : String) (e : Executor O) {x : GoError} {e' : Executor O}
      → y ≡ errorf text
      → throw_error c m agent {A = Unit {0}} y e ≡ (err x, e')
      → Thrown x e'
  throw_error-Thrown y text e {x} {e'} same p = record {
    text = text;
    from = e;
    same =
        subst (λ (r : Result (Unit {0})). RaisesOnly y r)
          (ap (λ (q : Result (Unit {0}) × Executor O). q.0) p)
          (throw_error-RaisesOnly (Unit {0}) y e)
        ∙ same;
    thrown = subst (λ z. throw_error c m agent {A = Unit {0}} z e ≡ (err x, e')) same p;
  }

  or_throw-Thrown :
      {A : Type 0} (n : Exec (Executor O) A) (text : String) (f : A → Exec (Executor O) (Unit {0}))
      (e : Executor O) {x : GoError} {e' : Executor O}
      → ((a : A) (s : Executor O) → f a s ≡ (err x, e') → Thrown x e')
      → or_throw c m agent n text f e ≡ (err x, e')
      → Thrown x e'
  or_throw-Thrown n text f e h p =
      settle-err Thrown (n e) _ f
        (λ y s q. throw_error-Thrown (wrap text y) (text <> error_text y) s refl q) h p

  start_health_check-Thrown :
      (id : String) (o : Option HealthCheck) (e : Executor O) {x : GoError} {e' : Executor O}
      → start_health_check c m agent id o e ≡ (err x, e')
      → Thrown x e'
  unfolding start_health_check
  start_health_check-Thrown id none e p = absurd (cc p)
  start_health_check-Thrown id (some k) e p =
      or_throw-Thrown (outside (c.container_get_pid id)) _ _ e (λ a s q. absurd (cc q)) p

  report_running-Thrown :
      (e : Executor O) {x : GoError} {e' : Executor O}
      → report_running c m agent e ≡ (err x, e')
      → Thrown x e'
  unfolding report_running new_status
  report_running-Thrown e p =
      or_throw-Thrown (update_status agent _) _ _ _ (λ a s q. absurd (cc q)) p

  create_and_run-Thrown :
      (info : Info) (e : Executor O) {x : GoError} {e' : Executor O}
      → create_and_run c m agent info e ≡ (err x, e')
      → Thrown x e'
  unfolding create_and_run
  create_and_run-Thrown info e p =
      or_throw-Thrown (outside (c.container_create info)) _ _ e
        (λ id e1. or_throw-Thrown (on_shared (run_pre_run_hooks m id c)) _ _ _ (λ _ e2.
          or_throw-Thrown (outside (c.container_run id)) _ _ e2 (λ _ e3.
            or_throw-Thrown (on_shared (run_post_run_hooks m id c)) _ _ e3 (λ _ e4.
              continue-err Thrown (start_health_check c m agent id e4.task_info.health_check e4) _
                (start_health_check-Thrown id e4.task_info.health_check e4)
                (λ _ e5.
                  continue-err Thrown (report_running c m agent e5) _ (report_running-Thrown e5)
                    (λ _ e6 q. absurd (cc q)))))))
        p

  -- Each error that `handleLaunch` returns was thrown: it is a text, never the end of the stream,
  -- and the state that is left is the one in which `throwError`, called with that very text, has
  -- torn down the task and tried to report it as failed.
  pub handle_launch-Thrown :
      (task : TaskInfo) (e : Executor O) {x : GoError} {e' : Executor O}
      → handle_launch c m agent task e ≡ (err x, e')
      → Thrown x e'
  unfolding handle_launch
  handle_launch-Thrown task e p =
      or_throw-Thrown (λ e. (get_memory_limit task, e)) _ _ _
        (λ mem e1.
          or_throw-Thrown (λ e. (get_cpu_shares_limit task, e)) _ _ e1
            (λ cpu e2.
              or_throw-Thrown (on_shared (run_pre_create_hooks m c)) _ _ e2
                (λ _ e3. create_and_run-Thrown _ e3)))
        p
