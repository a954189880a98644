-- ===== src/Executor/Launch/Running.antt =====
-- The state that a launch leaves where it returns no error (executor/executor.go).
use mathlib.Core.Path.{subst}
use go_mesos_executor.Common.{
  ◌≡◌, refl, sym, ◌∙◌, ap, String, ℕ, Option, none, some, List, [], ◌∷◌, ◌++◌,
}
use go_mesos_executor.Common.Exec.{Result, ok, err, fault, continue}
use go_mesos_executor.Common.Table.{lookup, insert, lookup-insert_self}
use go_mesos_executor.Container.{Containerizer}
use go_mesos_executor.Hook.{Manager}
use go_mesos_executor.Mesos.{TaskInfo, TaskStatus, HealthCheck, task_running, update}
use go_mesos_executor.Executor.{
  Agent, Executor, Checker, Goroutine, health_check, wait_container, new_checker, outside,
  with_outside, new_status, update_status,
}
use go_mesos_executor.Executor.Handlers.{start_health_check, report_running, handle_launch}
use go_mesos_executor.Executor.Launch.Launched.{Launched, handle_launch-Launched, or_throw-ok}

module _ {O : Type 0} (c : Containerizer O) (m : Manager O) (agent : Agent O) where
  -- What was started for a task, by its health check: a checker for the process of the container and
  -- the goroutine that listens to it, and in any case the goroutine that waits for the container.
  abbrev pub Started :
      Option HealthCheck
      → String
      → Option Checker
      → List Goroutine
      → Option Checker
      → List Goroutine
      → Type 0
  Started none id h gs h' gs' = (h' ≡ h) × (gs' ≡ gs ++ wait_container ∷ [])
  Started (some k) id h gs h' gs' =
      (pid : ℕ) × (o : O) × (o' : O) × (c.container_get_pid id o ≡ (ok pid, o'))
      × (h' ≡ some (new_checker pid id))
      × (gs' ≡ (gs ++ health_check ∷ []) ++ wait_container ∷ [])

  -- The report of a task that runs: what was sent, and what waits.
  pub record Running (e' : Executor O) : Type 0 where
    pub status : TaskStatus
    pub stated : status.state ≡ some task_running
    pub silent : status.message ≡ none
    pub own : status.task_id ≡ e'.task_info.task_id
    pub before : O
    pub after : O
    pub taken : agent.do_call (update status e'.executor_id e'.framework_id) before ≡ (ok tt, after)
    pub waits : lookup status.uuid e'.unacked_updates ≡ some status

  update_status-taken :
      (status : TaskStatus) (e e' : Executor O)
      → update_status agent status e ≡ (ok tt, e')
      → (o : O) × (agent.do_call (update status e.executor_id e.framework_id) e.outside
          ≡ (ok tt, o))
        × (e' ≡ record (with_outside e o) {
          unacked_updates = insert status.uuid status e.unacked_updates;
        })
  unfolding update_status
  update_status-taken status e e' =
      by_answer (agent.do_call (update status e.executor_id e.framework_id) e.outside) refl
    where
      by_answer :
          (r : Result (Unit {0}) × O)
          → agent.do_call (update status e.executor_id e.framework_id) e.outside ≡ r
          → continue {B = Unit {0}}
              (r.0, with_outside e r.1)
              (λ _ x.
                (ok tt, record x { unacked_updates = insert status.uuid status x.unacked_updates }))
            ≡ (ok tt, e')
          → (o : O) × (agent.do_call (update status e.executor_id e.framework_id) e.outside
              ≡ (ok tt, o))
            × (e' ≡ record (with_outside e o) {
              unacked_updates = insert status.uuid status e.unacked_updates;
            })
      by_answer (ok u, o) q p = (o, q, sym (ap (λ (r : Result (Unit {0}) × Executor O). r.1) p))
      by_answer (err x, o) q p = absurd (cc p)
      by_answer (fault x, o) q p = absurd (cc p)

  abbrev Four : Type 0
  Four = TaskInfo × String × Option Checker × List Goroutine

  abbrev four : Executor O → Four
  four e = (e.task_info, e.container_id, e.health_checker, e.goroutines)

  report_running-Running :
      (y z : Executor O) (gs : List Goroutine)
      → report_running c m agent y ≡ (ok tt, z)
      → Running (record z { goroutines = gs }) × (four z ≡ four y)
  unfolding report_running new_status
  report_running-Running y z gs =
      let status : TaskStatus = record {
        executor_id = y.executor_info.executor_id;
        task_id = y.task_info.task_id;
        uuid = (agent.new_uuid y.outside).0;
        state = some task_running;
        message = none;
        healthy = none;
      } in
      let y1 = with_outside y ((agent.new_uuid y.outside).1) in
      or_throw-ok c m agent (Running (record z { goroutines = gs }) × (four z ≡ four y))
        (update_status agent status) _ _ y1
        (λ a s sent same.
          let (o, taken, is) = update_status-taken status y1 z (sent ∙ same) in
          subst (λ x. Running (record x { goroutines = gs }) × (four x ≡ four y)) (sym is)
            (
              record {
                status = status;
                stated = refl;
                silent = refl;
                own = refl;
                before = y1.outside;
                after = o;
                taken = taken;
                waits = lookup-insert_self status.uuid status y1.unacked_updates;
              },
              refl,
            ))

  abbrev StartedBy : Option HealthCheck → String → Executor O → Executor O → Type 0
  StartedBy k id x y =
      Started k id x.health_checker x.goroutines y.health_checker
        (y.goroutines ++ wait_container ∷ [])
      × (y.task_info ≡ x.task_info)
      × (y.container_id ≡ x.container_id)

  start_health_check-Started :
      (k : Option HealthCheck) (id : String) (x y : Executor O)
      → start_health_check c m agent id k x ≡ (ok tt, y)
      → StartedBy k id x y
  unfolding start_health_check
  start_health_check-Started none id x y p =
      subst (StartedBy none id x) (ap (λ (r : Result (Unit {0}) × Executor O). r.1) p)
        ((refl, refl), refl, refl)
  start_health_check-Started (some k) id x y p =
      or_throw-ok c m agent (StartedBy (some k) id x y) (outside (c.container_get_pid id)) _ _ x
        (λ pid s got same.
          subst (StartedBy (some k) id x) (ap (λ (r : Result (Unit {0}) × Executor O). r.1) same) (
            (
              pid,
              x.outside,
              s.outside,
              ap (λ (r : Result ℕ × Executor O). (r.0, r.1.outside)) got,
              refl,
              ap
                  (λ (r : Result ℕ × Executor O).
                    (r.1.goroutines ++ health_check ∷ []) ++ wait_container ∷ [])
                  (sym got),
            ),
            ap (λ (r : Result ℕ × Executor O). r.1.task_info) (sym got),
            ap (λ (r : Result ℕ × Executor O). r.1.container_id) (sym got),
          ))
        p

  abbrev Pair : Type 0
  Pair = Option Checker × List Goroutine

  abbrev pair : Executor O → Pair
  pair e = (e.health_checker, e.goroutines)

  abbrev StartedFrom : Pair → Four → Type 0
  StartedFrom w v = Started (v.0).health_check v.1 w.0 w.1 v.2 v.3

  abbrev waiting : Four → Four
  waiting v = (v.0, v.1, v.2, v.3 ++ wait_container ∷ [])

  abbrev start_of : Executor O → Executor O → String → Four
  start_of x y id = (x.task_info, id, y.health_checker, y.goroutines ++ wait_container ∷ [])

  left : {A : Type 0} {r : Result A × Executor O} {a : A} {e : Executor O} → r ≡ (ok a, e) → r.1 ≡ e
  left {A} p = ap (λ (r : Result A × Executor O). r.1) p

  -- Up to its health check a launch makes no checker and starts no goroutine.
  Launched-pair :
      (task : TaskInfo) (e e' : Executor O) (l : Launched c m agent task e e')
      → pair l.at_check ≡ pair e
  Launched-pair task e e' l =
      sym (ap pair (left l.posted))
      ∙ sym (ap pair (left l.ran))
      ∙ sym (ap pair (left l.prepared))
      ∙ sym (ap pair (left l.created))
      ∙ sym (ap pair (left l.pre_created))

  Launched-container_id :
      (task : TaskInfo) (e e' : Executor O) (l : Launched c m agent task e e')
      → l.at_check.container_id ≡ l.id
  Launched-container_id task e e' l =
      sym (ap (λ (x : Executor O). x.container_id) (left l.posted))
      ∙ sym (ap (λ (x : Executor O). x.container_id) (left l.ran))
      ∙ sym (ap (λ (x : Executor O). x.container_id) (left l.prepared))

  -- What a launch leaves.
  pub record Ready (e e' : Executor O) : Type 0 where
    pub report : Running e'
    pub started :
        Started e'.task_info.health_check e'.container_id e.health_checker e.goroutines
          e'.health_checker e'.goroutines
    pub runs : (o : O) × (o' : O) × (c.container_run e'.container_id o ≡ (ok tt, o'))

  -- A launch that returns no error leaves a task that runs. The status running, with no message and
  -- for the id of the task, went to the agent, which took it, and waits for its acknowledgment. The
  -- engine has started the container whose id the executor has. If the task, as the hooks left it,
  -- has a health check, there is a health checker for the process of this container and a goroutine
  -- that listens to it; else neither has been made. And one goroutine more waits for the container.
  pub handle_launch-Ready :
      (task : TaskInfo) (e e' : Executor O)
      → handle_launch c m agent task e ≡ (ok tt, e')
      → Ready e e'
  handle_launch-Ready task e e' did =
      let l = handle_launch-Launched c m agent task e e' did in
      let gs = l.at_end.goroutines ++ wait_container ∷ [] in
      let (running, kept) = report_running-Running l.at_report l.at_end gs l.reported in
      let (started, task_kept, id_kept) =
        start_health_check-Started l.at_check.task_info.health_check l.id l.at_check l.at_report
          l.checking in
      let same_id = id_kept ∙ Launched-container_id task e e' l in
      let path : start_of l.at_check l.at_report l.id ≡ four e' =
        ap
          (λ (t : TaskInfo).
            start_of (record l.at_check { shared = record l.at_check.shared { task_info = t } })
              l.at_report l.id)
          (sym task_kept)
        ∙ ap (λ (i : String). start_of l.at_report l.at_report i) (sym same_id)
        ∙ ap waiting (sym kept)
        ∙ ap four (sym l.final) in
      record {
        report = subst Running (sym l.final) running;
        started = subst (StartedFrom (pair e)) path (
            subst (λ w. StartedFrom w (start_of l.at_check l.at_report l.id))
              (Launched-pair task e e' l) started);
        runs = (
          l.at_run.outside,
          l.at_post.outside,
          subst (λ (i : String). c.container_run i l.at_run.outside ≡ (ok tt, l.at_post.outside))
              (ap (λ (v : Four). v.1) path)
              (ap (λ (r : Result (Unit {0}) × Executor O). (r.0, r.1.outside)) l.ran),
        );
      }
