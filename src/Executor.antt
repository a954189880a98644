-- ===== src/Executor.antt =====
-- executor/executor.go: the executor's state and its handlers. Each handler is one step that is not
-- interrupted; what `go` starts is noted in `goroutines` and runs as steps of its own (Executor/Loop
-- and below). The log is left out.
pub mod Handlers
pub mod Launch
pub mod Updates
pub mod Teardown
pub mod Obliging
pub mod Exited
pub mod Loop
pub mod Ledger
pub mod Threads
pub mod Restore
use go_mesos_executor.Common.{
  ℕ, zero, String, ◌<>◌, Bool, true, false, Option, none, some, List, [], ◌∷◌, ◌++◌, str_eq, map,
  if◌then◌else◌,
}
use go_mesos_executor.Common.Exec.{
  GoError, unexpected_eof, errorf, error_text, blocked, Exec, Result, ok, err, fault, pure, raise,
  halt, attempt, gets, modify, within, settle, ◌>>=◌, ◌>>◌,
}
use go_mesos_executor.Common.Int.{ℤ, pos, negsuc}
use go_mesos_executor.Common.Table.{Table, insert, erase}
use go_mesos_executor.Common.Text.{itoa_ℤ}
use go_mesos_executor.Container.{Containerizer, Info}
use go_mesos_executor.Hook.{
  Shared, Manager, run_pre_create_hooks, run_pre_run_hooks, run_post_run_hooks, run_pre_stop_hooks,
  run_post_stop_hooks,
}
use go_mesos_executor.Mesos.{
  Float64, scale, truncate, Resource, get_value, TaskInfo, HealthCheck, FrameworkInfo, ExecutorInfo,
  AgentInfo, TaskStatus, TaskState, task_running, task_killed, task_failed, task_finished, Call,
  subscribe, update, Event, subscribed, launch, kill, acknowledged, message, shutdown, agent_error,
  other_event,
}

-- The agent's HTTP client, the decoder of its stream of events, and the source of UUIDs.
pub record Agent (O : Type 0) : Type 0 where
  pub do_call : Call → Exec O (Unit {0})
  pub decode : Exec O Event
  pub new_uuid : O → String × O

-- Where the checker's goroutine is, as far as its `Quit` channel goes: it comes back to the `select`
-- that receives from it; it has received and is about to say so on `Exited`; it has returned
-- without a look at `Quit`.
pub data CheckerPhase : Type 0 where
  active exiting returned : CheckerPhase

pub record Checker : Type 0 where
  pub pid : ℕ
  pub container_id : String
  pub phase : CheckerPhase

pub data Goroutine : Type 0 where
  health_check wait_container : Goroutine

-- The struct, less its client, containerizer, hook manager and table of handlers, which never change
-- and are arguments of the definitions, and less its channel of signals and its mutex. What the
-- hooks see of it, the task and the framework, is in `shared`.
pub record Executor (O : Type 0) : Type 0 where
  pub agent_info : AgentInfo
  pub container_id : String
  pub container_name : String
  pub executor_id : String
  pub executor_info : ExecutorInfo
  pub framework_id : String
  pub health_checker : Option Checker
  pub is_shutdown : Bool
  pub unacked_updates : Table TaskStatus
  pub goroutines : List Goroutine
  pub shared : Shared O
  pub open shared use *

pub record Config : Type 0 where
  pub agent_endpoint : String
  pub container_name : String
  pub executor_id : String
  pub framework_id : String

-- `apiURL.String()`, for an endpoint that needs no escapes in a URL.
unfoldable pub api_url : Config → String
api_url config = "http://" <> (config.agent_endpoint <> "/api/v1/executor")

abbrev empty_task : TaskInfo
empty_task = record {
  task_id = "";
  resources = [];
  command = none;
  container = none;
  health_check = none;
  labels = none;
}

-- The package variables of the hooks are empty when the program starts.
unfoldable pub new_executor : {O : Type 0} → Config → O → Executor O
new_executor config o = record {
  agent_info = record { hostname = "" };
  container_id = "";
  container_name = config.container_name;
  executor_id = config.executor_id;
  executor_info = record { executor_id = "" };
  framework_id = config.framework_id;
  health_checker = none;
  is_shutdown = false;
  unacked_updates = [];
  goroutines = [];
  shared = record {
    task_info = empty_task;
    framework_info = record { name = "" };
    netns_hook_container_pid = 0;
    netns_hook_symlink_path = "";
    iptables_hook_container_ip_cache = [];
    outside = o;
  };
}

-- The task's resource of that name, the first one.
unfoldable pub get_resource : List Resource → String → Result Resource
get_resource [] name = err (errorf ("Unable to find resource " <> name))
get_resource (r ∷ rs) name = if str_eq r.name name then ok r else get_resource rs name

abbrev scaled : ℕ → Result Resource → Result ℕ
scaled k (ok r) = ok (truncate (scale (get_value r) k))
scaled k (err e) = err e
scaled k (fault x) = fault x

-- In bytes: the products by 1024 are by 2 ^ 10.
unfoldable pub get_memory_limit : TaskInfo → Result ℕ
unfolding get_resource
get_memory_limit task = scaled 20 (get_resource task.resources "mem")

-- `cpuSharesPerCPU` is 1024.
unfoldable pub get_cpu_shares_limit : TaskInfo → Result ℕ
unfolding get_resource
get_cpu_shares_limit task = scaled 10 (get_resource task.resources "cpus")

abbrev pub new_checker : ℕ → String → Checker
new_checker pid id = record { pid = pid; container_id = id; phase = active }

module _ {O : Type 0} where
  -- An action of the hooks, and one of the outside, from where a handler runs.
  abbrev pub on_shared : {A : Type 0} → Exec (Shared O) A → Exec (Executor O) A
  on_shared = within (λ e. e.shared) (λ e s. record e { shared = s })

  abbrev pub with_outside : Executor O → O → Executor O
  with_outside e o = record e { shared = record e.shared { outside = o } }

  abbrev pub outside : {A : Type 0} → Exec O A → Exec (Executor O) A
  outside = within (λ e. e.shared.outside) with_outside

  -- `e.HealthChecker.Quit <- struct{}{}`
  abbrev pub quit_at : CheckerPhase → Checker → Exec (Executor O) (Unit {0})
  quit_at active c e = (ok tt, record e { health_checker = some (record c { phase = exiting }) })
  quit_at exiting c e = (fault (blocked "Quit"), e)
  quit_at returned c e = (fault (blocked "Quit"), e)

  abbrev pub quit : Option Checker → Exec (Executor O) (Unit {0})
  quit none e = (ok tt, e)
  quit (some c) e = quit_at c.phase c e

  unfoldable pub quit_checker : Exec (Executor O) (Unit {0})
  quit_checker e = quit e.health_checker e

  -- `go f()`
  abbrev pub start : Goroutine → Exec (Executor O) (Unit {0})
  start g = modify (λ e. record e { goroutines = e.goroutines ++ g ∷ [] })

abbrev pub wrap : String → GoError → GoError
wrap text x = errorf (text <> error_text x)

module _ {O : Type 0} (agent : Agent O) where
  unfoldable pub new_status : Exec (Executor O) TaskStatus
  new_status e =
      let (uuid, o) = agent.new_uuid e.outside in
      (
        ok (record {
          executor_id = e.executor_info.executor_id;
          task_id = e.task_info.task_id;
          uuid = uuid;
          state = none;
          message = none;
          healthy = none;
        }),
        with_outside e o,
      )

  unfoldable pub update_status : TaskStatus → Exec (Executor O) (Unit {0})
  update_status status = do
    call ← gets (λ e. update status e.executor_id e.framework_id)
    outside (agent.do_call call)
    modify (λ e. record e { unacked_updates = insert status.uuid status e.unacked_updates })

module _ {O : Type 0} (c : Containerizer O) (m : Manager O) where
  -- The part of `tearDown` behind the health checker.
  unfoldable pub stop_task : Exec (Executor O) (Unit {0})
  stop_task = do
    id ← gets (λ e. e.container_id)
    attempt (on_shared (run_pre_stop_hooks m id c))
    attempt (outside (c.container_stop id))
    attempt (on_shared (run_post_stop_hooks m id c))

  unfoldable pub tear_down : Exec (Executor O) (Unit {0})
  unfolding quit_checker stop_task
  tear_down = do quit_checker; stop_task

module _ {O : Type 0} (agent : Agent O) where
  -- The status update of `throwError`, with the text of the error as its message.
  unfoldable pub report_failed : GoError → Exec (Executor O) (Unit {0})
  report_failed x = do
    status ← new_status agent
    update_status agent (record status { state = some task_failed; message = some (error_text x) })

module _ {O : Type 0} (c : Containerizer O) (m : Manager O) (agent : Agent O) where
  -- An error of the update is dropped.
  unfoldable pub throw_error : {A : Type 0} → GoError → Exec (Executor O) A
  throw_error x = do tear_down c m; attempt (report_failed agent x); raise x
