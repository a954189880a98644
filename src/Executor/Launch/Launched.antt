-- ===== src/Executor/Launch/Launched.antt =====
-- `handleLaunch` (executor/executor.go) where it returns no error.
use mathlib.Core.Path.{subst}
use go_mesos_executor.Common.{◌≡◌, refl, sym, ap, String, ℕ, [], ◌∷◌, ◌++◌}
use go_mesos_executor.Common.Exec.{
  GoError, Result, ok, err, fault, Exec, RaisesOnly, continue, settle-ok,
}
use go_mesos_executor.Container.{Containerizer}
use go_mesos_executor.Hook.{Manager, run_pre_create_hooks, run_pre_run_hooks, run_post_run_hooks}
use go_mesos_executor.Mesos.{TaskInfo}
use go_mesos_executor.Executor.{
  Agent, Executor, wait_container, get_memory_limit, get_cpu_shares_limit, on_shared, outside, wrap,
  throw_error,
}
use go_mesos_executor.Executor.Handlers.{
  or_throw, start_health_check, report_running, create_and_run, handle_launch,
}
use go_mesos_executor.Executor.Launch.{throw_error-RaisesOnly}

module _ {O : Type 0} (c : Containerizer O) (m : Manager O) (agent : Agent O) where
  thrown-ok :
      {B : Type 0} (x : GoError) (e e' : Executor O) (b : B)
      → throw_error c m agent {A = B} x e ≡ (ok b, e')
      → ⊥
  thrown-ok {B} x e e' b did =
      subst (λ (r : Result B × Executor O). RaisesOnly x r.0) did
        (throw_error-RaisesOnly c m agent B x e)

  module _ {B : Type 0} (C : Type 0) {b : B} {e' : Executor O} where
    -- What `or_throw` went through where it returned a value.
    pub or_throw-ok :
        {A : Type 0} (n : Exec (Executor O) A) (text : String) (f : A → Exec (Executor O) B)
        (e : Executor O)
        → ((a : A) (s : Executor O) → n e ≡ (ok a, s) → f a s ≡ (ok b, e') → C)
        → or_throw c m agent n text f e ≡ (ok b, e')
        → C
    or_throw-ok n text f e =
        settle-ok C (n e) _ f (λ x s bad. absurd (thrown-ok (wrap text x) s e' b bad))

    -- The same for a result that needs no call.
    result-ok :
        {A : Type 0} (r : Result A) (text : String) (f : A → Exec (Executor O) B) (e : Executor O)
        → ((a : A) → r ≡ ok a → f a e ≡ (ok b, e') → C)
        → or_throw c m agent (λ s. (r, s)) text f e ≡ (ok b, e')
        → C
    result-ok (ok a) text f e h p = h a refl p
    result-ok (err x) text f e h p = absurd (thrown-ok (wrap text x) e e' b p)
    result-ok (fault x) text f e h p = absurd (cc p)

    next-ok :
        {A : Type 0} (r : Result A × Executor O) (f : A → Exec (Executor O) B)
        → ((a : A) (s : Executor O) → r ≡ (ok a, s) → f a s ≡ (ok b, e') → C)
        → continue r f ≡ (ok b, e')
        → C
    next-ok (ok a, s) f h p = h a s refl p
    next-ok (err x, s) f h p = absurd (cc p)
    next-ok (fault x, s) f h p = absurd (cc p)

  -- The calls of a launch, in order, with the state behind each.
  pub record Launched (task : TaskInfo) (e e' : Executor O) : Type 0 where
    pub mem : ℕ
    pub cpu : ℕ
    pub memory : get_memory_limit task ≡ ok mem
    pub shares : get_cpu_shares_limit task ≡ ok cpu
    pub at_create : Executor O
    pub pre_created :
        on_shared
          (run_pre_create_hooks m c)
          (record e { shared = record e.shared { task_info = task } })
        ≡ (ok tt, at_create)
    pub id : String
    pub made : Executor O
    pub created :
        outside
          (c.container_create (record {
            cpu_shares_limit = cpu;
            memory_limit = mem;
            name = e.container_name;
            task_info = record task { container = at_create.task_info.container };
          }))
          at_create
        ≡ (ok id, made)
    pub at_run : Executor O
    pub prepared :
        on_shared (run_pre_run_hooks m id c) (record made { container_id = id }) ≡ (ok tt, at_run)
    pub at_post : Executor O
    pub ran : outside (c.container_run id) at_run ≡ (ok tt, at_post)
    pub at_check : Executor O
    pub posted : on_shared (run_post_run_hooks m id c) at_post ≡ (ok tt, at_check)
    pub at_report : Executor O
    pub checking :
        start_health_check c m agent id at_check.task_info.health_check at_check
        ≡ (ok tt, at_report)
    pub at_end : Executor O
    pub reported : report_running c m agent at_report ≡ (ok tt, at_end)
    pub final : e' ≡ record at_end { goroutines = at_end.goroutines ++ wait_container ∷ [] }

  -- A launch that returns no error has gone through all its calls, in the order of the code, and
  -- each of them returned no error.
  pub handle_launch-Launched :
      (task : TaskInfo) (e e' : Executor O)
      → handle_launch c m agent task e ≡ (ok tt, e')
      → Launched task e e'
  unfolding handle_launch create_and_run
  handle_launch-Launched task e e' =
      let C = Launched task e e' in
      result-ok C (get_memory_limit task) _ _ _ (λ mem memory.
        result-ok C (get_cpu_shares_limit task) _ _ _ (λ cpu shares.
          or_throw-ok C (on_shared (run_pre_create_hooks m c)) _ _ _ (λ _ e1 pre.
            or_throw-ok C (outside (c.container_create _)) _ _ e1 (λ id e2 created.
              or_throw-ok C (on_shared (run_pre_run_hooks m id c)) _ _ _ (λ _ e3 prepared.
                or_throw-ok C (outside (c.container_run id)) _ _ e3 (λ _ e4 ran.
                  or_throw-ok C (on_shared (run_post_run_hooks m id c)) _ _ e4 (λ _ e5 posted.
                    next-ok C (start_health_check c m agent id e5.task_info.health_check e5) _
                      (λ _ e6 checking.
                        next-ok C (report_running c m agent e6) _ (λ _ e7 reported did. record {
                          mem = mem;
                          cpu = cpu;
                          memory = memory;
                          shares = shares;
                          at_create = e1;
                          pre_created = pre;
                          id = id;
                          made = e2;
                          created = created;
                          at_run = e3;
                          prepared = prepared;
                          at_post = e4;
                          ran = ran;
                          at_check = e5;
                          posted = posted;
                          at_report = e6;
                          checking = checking;
                          at_end = e7;
                          reported = reported;
                          final = ap (λ (x : Result (Unit {0}) × Executor O). x.1) (sym did);
                        })))))))))
