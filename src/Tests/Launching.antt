-- ===== src/Tests/Launching.antt =====
-- Runs of launches, and of the loop of `Execute`, in the small world.
use go_mesos_executor.Common.{refl, none}
use go_mesos_executor.Common.Exec.{GoError, errorf}
use go_mesos_executor.Mesos.{launch, kill}
use go_mesos_executor.Hook.{run_hooks, run_loop, run_pre_stop_hooks, run_post_stop_hooks}
use go_mesos_executor.Executor.{
  Agent, Executor, get_resource, get_memory_limit, quit_checker, new_status, update_status,
  stop_task, tear_down, report_failed, throw_error,
}
use go_mesos_executor.Executor.Handlers.{handle_launch, report_killed, handle_kill}
use go_mesos_executor.Executor.Launch.{Thrown, handle_launch-Thrown}
use go_mesos_executor.Executor.Loop.{
  subscribing, finished, main_step, handle_stop_signal, here, next, main, signalled,
}
use go_mesos_executor.Executor.Loop.Ended.{Ended, Reach-Ended}
use go_mesos_executor.Tests.World.{World, agent_of, engine, no_hooks, executor_with, small_task}

abbrev idle : Executor World
idle = executor_with none

abbrev no_memory : GoError
no_memory = errorf "error while getting memory limit: Unable to find resource mem"

abbrev small_agent : Agent World
small_agent = agent_of (launch small_task)

abbrev after_launch : Executor World
after_launch = (handle_launch engine no_hooks small_agent small_task idle).1

handle_launch-Thrown_example : Thrown engine no_hooks small_agent no_memory after_launch
unfolding handle_launch get_memory_limit get_resource throw_error tear_down quit_checker stop_task
    run_pre_stop_hooks run_post_stop_hooks run_hooks run_loop report_failed new_status update_status
handle_launch-Thrown_example =
    handle_launch-Thrown engine no_hooks small_agent small_task idle {x = no_memory}
      {e' = after_launch} refl

abbrev killing_agent : Agent World
killing_agent = agent_of kill

abbrev signal_handled : Executor World
signal_handled = (handle_stop_signal engine no_hooks killing_agent idle).1

Reach-Ended_example : Ended engine no_hooks killing_agent (finished none, signal_handled)
unfolding main_step handle_stop_signal handle_kill report_killed tear_down quit_checker stop_task
    run_pre_stop_hooks run_post_stop_hooks run_hooks run_loop new_status update_status
Reach-Ended_example = Reach-Ended engine no_hooks killing_agent {e = idle} (
    next (next here (signalled {p = subscribing} {e = idle} {e' = signal_handled} refl))
      (main {p = subscribing} {q = finished none} {e = signal_handled} {e' = signal_handled} refl))
