-- ===== src/Tests/Ledgers.antt =====
-- Runs of the executor against the abstract ledger of its updates.
use go_mesos_executor.Common.{refl, some, none, [], ◌∷◌}
use go_mesos_executor.Common.Table.{insert, erase}
use go_mesos_executor.Mesos.{TaskStatus, acknowledged, task_killed}
use go_mesos_executor.Hook.{run_hooks, run_loop, run_pre_stop_hooks, run_post_stop_hooks}
use go_mesos_executor.Executor.{
  Agent, Config, Executor, quit_checker, new_status, update_status, stop_task, tear_down,
  new_executor,
}
use go_mesos_executor.Executor.Handlers.{
  handle_kill, report_killed, handle_acknowledged, handle_event, get_unacked_updates,
}
use go_mesos_executor.Executor.Ledger.{Moves}
use go_mesos_executor.Executor.Ledger.Order.{Dropped, handle_acknowledged-Dropped}
use go_mesos_executor.Executor.Ledger.Refines.{Took, Acked, Reach-Moves}
use go_mesos_executor.Executor.Loop.{
  handling, subscribing, main_step, event_step, handle_stop_signal, main, signalled, here, next,
}
use go_mesos_executor.Executor.Updates.{pending}
use go_mesos_executor.Tests.World.{World, agent_of, engine, no_hooks, executor_with, running_status}

-- The agent takes every call, and acknowledges the one UUID.
abbrev acknowledging : Agent World
acknowledging = agent_of (acknowledged "uuid-1")

abbrev config : Config
config = record {
  agent_endpoint = "127.0.0.1:5051";
  container_name = "mesos-web";
  executor_id = "executor";
  framework_id = "framework";
}

abbrev started : Executor World
started = new_executor config []

abbrev signal_handled : Executor World
signal_handled = (handle_stop_signal engine no_hooks acknowledging started).1

abbrev killed_status : TaskStatus
killed_status = record {
  executor_id = "";
  task_id = "";
  uuid = "uuid-1";
  state = some task_killed;
  message = none;
  healthy = none;
}

abbrev waiting : Executor World
waiting = (update_status acknowledging running_status (executor_with none)).1

abbrev acknowledged_state : Executor World
acknowledged_state = (handle_acknowledged engine no_hooks acknowledging "uuid-1" waiting).1

Reach-Moves_example :
    Moves
      (Took acknowledging "executor" "framework")
      (Acked acknowledging)
      (pending waiting)
      (pending acknowledged_state)
unfolding main_step event_step handle_event handle_acknowledged update_status
Reach-Moves_example =
    Reach-Moves engine no_hooks acknowledging waiting {t = (handling, acknowledged_state)}
      (next here (main {p = handling} {q = handling} {e = waiting} {e' = acknowledged_state} refl))

handle_acknowledged-Dropped_example :
    Dropped engine no_hooks acknowledging (pending signal_handled "uuid-1") (killed_status ∷ []) []
unfolding new_executor handle_stop_signal handle_kill report_killed tear_down quit_checker stop_task
    run_pre_stop_hooks run_post_stop_hooks run_hooks run_loop new_status update_status insert erase
    get_unacked_updates handle_acknowledged
handle_acknowledged-Dropped_example =
    handle_acknowledged-Dropped engine no_hooks acknowledging config []
      {t = (subscribing, signal_handled)} "uuid-1" (killed_status ∷ []) []
      (record signal_handled { unacked_updates = [] })
      (next here (signalled {p = subscribing} {e = started} {e' = signal_handled} refl)) refl refl
      refl
