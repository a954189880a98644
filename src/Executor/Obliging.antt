-- ===== src/Executor/Obliging.antt =====
-- Where the hooks and the engine come back and the agent takes the calls (executor/executor.go).
use go_mesos_executor.Common.{◌≡◌, refl, sym, ◌∙◌, ap, String, Option, none, some}
use go_mesos_executor.Common.Exec.{
  Result, ok, err, fault, Exec, attempt, drop_error, continue, NoFault, ◌>>=◌,
}
use go_mesos_executor.Common.Table.{insert, lookup-insert_self}
use go_mesos_executor.Container.{Containerizer}
use go_mesos_executor.Hook.{Shared, Manager, run_pre_stop_hooks, run_post_stop_hooks}
use go_mesos_executor.Mesos.{Call, TaskStatus, TaskState, update}
use go_mesos_executor.Executor.{
  Agent, Executor, on_shared, outside, with_outside, new_status, update_status, stop_task,
  tear_down, quit_checker,
}
use go_mesos_executor.Executor.Teardown.{
  Listens, told, teardown_of, quit-Listens, tear_down-attempt_all,
}
use go_mesos_executor.Executor.Updates.{pending}

-- The stop hooks and the engine's stop come back, with an error or not, and the agent takes calls.
pub record IsObliging {O : Type 0} (c : Containerizer O) (m : Manager O) (agent : Agent O)
    : Type 0 where
  pub pre_stops : (id : String) (s : Shared O) → NoFault (run_pre_stop_hooks m id c s).0
  pub stops : (id : String) (o : O) → NoFault (c.container_stop id o).0
  pub post_stops : (id : String) (s : Shared O) → NoFault (run_post_stop_hooks m id c s).0
  pub takes : (call : Call) (o : O) → (agent.do_call call o).0 ≡ ok tt

-- A status with this state and message that waits for its acknowledgment.
pub record Reported {O : Type 0} (state : TaskState) (message : Option String) (e : Executor O)
    : Type 0 where
  pub status : TaskStatus
  pub stated : status.state ≡ some state
  pub messaged : status.message ≡ message
  pub waits : pending e status.uuid ≡ some status

-- What an end of the task leaves: the whole teardown of `e` was run, and `e'` is what it left, but
-- for the outside and for the status, which went to the agent and waits for its acknowledgment.
pub record Closed {O : Type 0} (c : Containerizer O) (m : Manager O) (state : TaskState)
    (message : Option String) (e e' : Executor O) : Type 0 where
  pub torn_down : Executor O
  pub torn :
      teardown_of c m e.container_id (record e { health_checker = told e.health_checker })
      ≡ (ok tt, torn_down)
  pub reported : Reported state message e'
  pub o : O
  pub rest : e' ≡ record (with_outside torn_down o) {
    unacked_updates = insert reported.status.uuid reported.status torn_down.unacked_updates;
  }

module _ {O : Type 0} (c : Containerizer O) (m : Manager O) (agent : Agent O)
    (B : IsObliging c m agent) where
  dropped : (r : Result (Unit {0}) × Executor O) → NoFault r.0 → drop_error r ≡ (ok tt, r.1)
  dropped (ok u, e) n = refl
  dropped (err x, e) n = refl
  dropped (fault x, e) n = absurd n

  stop_task-ok : (e : Executor O) → (e' : Executor O) × (stop_task c m e ≡ (ok tt, e'))
  unfolding stop_task
  stop_task-ok e =
      let pre = on_shared (run_pre_stop_hooks m e.container_id c) in
      let stop = outside (c.container_stop e.container_id) in
      let post = on_shared (run_post_stop_hooks m e.container_id c) in
      let e1 = (pre e).1 in
      let e2 = (stop e1).1 in
      (
        (post e2).1,
        ap
              (λ (r : Result (Unit {0}) × Executor O).
                continue r (λ _ x. continue (attempt stop x) (λ _. attempt post)))
              (dropped (pre e) (B.pre_stops _ _))
            ∙ ap (λ (r : Result (Unit {0}) × Executor O). continue r (λ _. attempt post))
                (dropped (stop e1) (B.stops _ _))
            ∙ dropped (post e2) (B.post_stops _ _),
      )

  pub tear_down-ok :
      (e : Executor O)
      → Listens e.health_checker
      → (e' : Executor O) × (tear_down c m e ≡ (ok tt, e'))
  unfolding tear_down quit_checker
  tear_down-ok e l =
      let (e', did) = stop_task-ok (record e { health_checker = told e.health_checker }) in
      (
        e',
        ap (λ (r : Result (Unit {0}) × Executor O). continue r (λ _. stop_task c m))
              (quit-Listens c m e.health_checker e refl l)
            ∙ did,
      )

  update_status-ok :
      (status : TaskStatus) (e : Executor O)
      → update_status agent status e ≡ (
        ok tt,
        record (with_outside e
            ((agent.do_call (update status e.executor_id e.framework_id) e.outside).1)) {
              unacked_updates = insert status.uuid status e.unacked_updates;
            },
      )
  unfolding update_status
  update_status-ok status e =
      let call = update status e.executor_id e.framework_id in
      ap
        (λ (r : Result (Unit {0})).
          continue (r, with_outside e ((agent.do_call call e.outside).1))
            (λ _ x.
              (ok tt, record x { unacked_updates = insert status.uuid status x.unacked_updates })))
        (B.takes call e.outside)

  -- A new status with a state and a message, sent.
  abbrev pub send : TaskState → Option String → Exec (Executor O) (Unit {0})
  send state message = do
    status ← new_status agent
    update_status agent (record status { state = some state; message = message })

  pub send-ok :
      (state : TaskState) (message : Option String) (e : Executor O)
      → (e' : Executor O) × (send state message e ≡ (ok tt, e'))
        × (r : Reported state message e') × (o : O) × (e' ≡ record (with_outside e o) {
          unacked_updates = insert r.status.uuid r.status e.unacked_updates;
        })
  unfolding new_status
  send-ok state message e =
      let status : TaskStatus = record {
        executor_id = e.executor_info.executor_id;
        task_id = e.task_info.task_id;
        uuid = (agent.new_uuid e.outside).0;
        state = some state;
        message = message;
        healthy = none;
      } in
      (
        _,
        update_status-ok status (with_outside e ((agent.new_uuid e.outside).1)),
        record {
          status = status;
          stated = refl;
          messaged = refl;
          waits = lookup-insert_self status.uuid status e.unacked_updates;
        },
        _,
        refl,
      )

  -- A teardown and the report behind it.
  pub close-ok :
      (state : TaskState) (message : Option String) (e : Executor O)
      → Listens e.health_checker
      → (e1 : Executor O) × (tear_down c m e ≡ (ok tt, e1))
        × (e2 : Executor O) × (send state message e1 ≡ (ok tt, e2))
        × Closed c m state message e e2
  close-ok state message e l =
      let (e1, torn) = tear_down-ok e l in
      let (e2, sent, reported, o, rest) = send-ok state message e1 in
      (
        e1,
        torn,
        e2,
        sent,
        record {
          torn_down = e1;
          torn = sym (tear_down-attempt_all c m e l) ∙ torn;
          reported = reported;
          o = o;
          rest = rest;
        },
      )
