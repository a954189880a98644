-- ===== src/Executor/Handlers.antt =====
-- executor/executor.go: the handlers of events, and the goroutine that waits for the container.
use go_mesos_executor.Common.{zero, String, ◌<>◌, true, Option, none, some, List, map}
use go_mesos_executor.Common.Exec.{
  GoError, errorf, Exec, pure, raise, gets, modify, settle, ◌>>=◌, ◌>>◌,
}
use go_mesos_executor.Common.Int.{ℤ, pos}
use go_mesos_executor.Common.Table.{erase}
use go_mesos_executor.Common.Text.{itoa_ℤ}
use go_mesos_executor.Container.{Containerizer, Info}
use go_mesos_executor.Hook.{Manager, run_pre_create_hooks, run_pre_run_hooks, run_post_run_hooks}
use go_mesos_executor.Mesos.{
  TaskInfo, HealthCheck, FrameworkInfo, ExecutorInfo, AgentInfo, TaskStatus, task_running,
  task_killed, task_finished, Event, subscribed, launch, kill, acknowledged, message, shutdown,
  agent_error, other_event,
}
use go_mesos_executor.Executor.{
  Agent, new_checker, health_check, wait_container, Executor, get_memory_limit,
  get_cpu_shares_limit, on_shared, outside, start, wrap, new_status, update_status, tear_down,
  throw_error,
}

-- The error for an exit code that is not 0.
abbrev pub exit_of : ℤ → Option GoError
exit_of (pos zero) = none
exit_of code = some (errorf ("container exited (code " <> (itoa_ℤ code <> ")")))

module _ {O : Type 0} (c : Containerizer O) (m : Manager O) (agent : Agent O) where
  -- `if err != nil { return e.throwError(fmt.Errorf("…: %v", err)) }`
  abbrev pub or_throw :
      {A B : Type 0}
      → Exec (Executor O) A
      → String
      → (A → Exec (Executor O) B)
      → Exec (Executor O) B
  or_throw n text f e = settle (n e) (λ x. throw_error c m agent (wrap text x)) f

  -- The part of `handleLaunch` that starts the health checker.
  unfoldable pub start_health_check : String → Option HealthCheck → Exec (Executor O) (Unit {0})
  start_health_check id none = pure tt
  start_health_check id (some _) =
      or_throw (outside (c.container_get_pid id)) "error while getting container pid: " λ pid. do
        modify (λ e. record e { health_checker = some (new_checker pid id) })
        start health_check

  -- The part of `handleLaunch` that updates the status to running.
  unfoldable pub report_running : Exec (Executor O) (Unit {0})
  report_running = do
    status ← new_status agent
    or_throw (update_status agent (record status { state = some task_running }))
        "error while updating task status: " pure

  -- The part of `handleLaunch` from the creation of the container.
  unfoldable pub create_and_run : Info → Exec (Executor O) (Unit {0})
  unfolding start_health_check report_running
  create_and_run info =
      or_throw (outside (c.container_create info)) "error while creating the container: " λ id. do
        modify (λ e. record e { container_id = id })
        or_throw (on_shared (run_pre_run_hooks m id c)) "error while running pre-run hooks: " λ _.
            or_throw (outside (c.container_run id)) "error while starting the container: " λ _.
              or_throw (on_shared (run_post_run_hooks m id c))
                "error while running post-run hooks: "
                λ _. do
                  check ← gets (λ e. e.task_info.health_check)
                  start_health_check id check
                  report_running
                  start wait_container

  -- The body of `handleLaunch`. The container is made from the task as it came: what the pre-create
  -- hooks change of it comes after the copy in `info`, but for what they reach through a pointer,
  -- the container's description.
  unfoldable pub handle_launch : TaskInfo → Exec (Executor O) (Unit {0})
  unfolding create_and_run get_memory_limit get_cpu_shares_limit
  handle_launch task = do
    modify (λ e. record e { shared = record e.shared { task_info = task } })
    or_throw (λ e. (get_memory_limit task, e)) "error while getting memory limit: "
        λ mem.
          or_throw (λ e. (get_cpu_shares_limit task, e)) "error while getting cpu shares limit: "
            λ cpu. do
              name ← gets (λ e. e.container_name)
              or_throw (on_shared (run_pre_create_hooks m c))
                  "error while running pre-create hooks: "
                  λ _. do
                    container ← gets (λ e. e.task_info.container)
                    create_and_run (record {
                      cpu_shares_limit = cpu;
                      memory_limit = mem;
                      name = name;
                      task_info = record task { container = container };
                    })

  unfoldable pub report_killed : Exec (Executor O) (Unit {0})
  report_killed = do
    status ← new_status agent
    update_status agent (record status { state = some task_killed })

  unfoldable pub handle_kill : Exec (Executor O) (Unit {0})
  handle_kill = do modify (λ e. record e { is_shutdown = true }); tear_down c m; report_killed

  unfoldable pub handle_subscribed :
      AgentInfo → ExecutorInfo → FrameworkInfo → Exec (Executor O) (Unit {0})
  handle_subscribed agent_info executor_info framework_info = modify (λ e. record e {
    agent_info = agent_info;
    executor_info = executor_info;
    shared = record e.shared { framework_info = framework_info };
  })

  unfoldable pub handle_acknowledged : String → Exec (Executor O) (Unit {0})
  handle_acknowledged uuid =
      modify (λ e. record e { unacked_updates = erase uuid e.unacked_updates })

  -- The message is logged.
  unfoldable pub handle_message : String → Exec (Executor O) (Unit {0})
  handle_message text = pure tt

  unfoldable pub handle_shutdown : Exec (Executor O) (Unit {0})
  handle_shutdown = handle_kill

  unfoldable pub handle_error : String → Exec (Executor O) (Unit {0})
  handle_error text = raise (errorf text)

  -- The table of handlers that `NewExecutor` registers; an event with none is passed over.
  unfoldable pub handle_event : Event → Exec (Executor O) (Unit {0})
  unfolding handle_subscribed handle_launch handle_kill handle_acknowledged handle_message
      handle_shutdown handle_error
  handle_event (subscribed a x f) = handle_subscribed a x f
  handle_event (launch task) = handle_launch task
  handle_event kill = handle_kill
  handle_event (acknowledged uuid) = handle_acknowledged uuid
  handle_event (message text) = handle_message text
  handle_event shutdown = handle_shutdown
  handle_event (agent_error text) = handle_error text
  handle_event other_event = pure tt

  abbrev pub finish : Option GoError → Exec (Executor O) (Unit {0})
  finish (some x) = throw_error c m agent x
  finish none = do
    tear_down c m
    status ← new_status agent
    update_status agent (record status { state = some task_finished })

  -- The goroutine that waits for the container to stop.
  unfoldable pub wait_for_container : Exec (Executor O) (Unit {0})
  wait_for_container = do
    id ← gets (λ e. e.container_id)
    or_throw (outside (c.container_wait id)) "error while waiting for container to stop: "
        λ code. finish (exit_of code)

  unfoldable pub get_unacked_updates : Exec (Executor O) (List TaskStatus)
  get_unacked_updates = gets (λ e. map (λ x. x.1) e.unacked_updates)
