-- ===== src/Tests/Together.antt =====
-- Runs of two goroutines that end the task, in the small world.
use mathlib.Core.List.{Memᴰ}
use native.Mathlib.Decide.{ℕ_discrete}
use go_mesos_executor.Common.{ℕ, ◌≡◌, refl, ◌≤◌, true, none, some, [], ◌∷◌}
use go_mesos_executor.Hook.{run_hooks, run_loop, run_pre_stop_hooks}
use go_mesos_executor.Executor.{
  Agent, Executor, Checker, wait_container, active, exiting, quit_checker,
}
use go_mesos_executor.Executor.Loop.{without_goroutine}
use go_mesos_executor.Executor.Threads.{
  killing, ending, flagging, quitting, pre_stopping, stopping, Place, elsewhere, within_routine,
  update_at, perform, Threads, kills, container_ends, calls, Run, stands, goes, quiet,
}
use go_mesos_executor.Executor.Threads.Alone.{Run-passed}
use go_mesos_executor.Executor.Threads.Unlocked.{Run-both}
use go_mesos_executor.Mesos.{kill}
use go_mesos_executor.Tests.World.{World, agent_of, engine, no_hooks, executor_with}

abbrev test_agent : Agent World
test_agent = agent_of kill

abbrev checker : Checker
checker = record { pid = 666; container_id = "c1"; phase = active }

abbrev checked : Executor World
checked = record (executor_with (some checker)) { goroutines = wait_container ∷ [] }

abbrev unchecked : Executor World
unchecked = record (executor_with none) { goroutines = wait_container ∷ [] }

abbrev ended : Executor World
ended = without_goroutine wait_container checked

-- The goroutine that waits is there.
waiting : Memᴰ wait_container (wait_container ∷ [])
waiting = Memᴰ.head refl

abbrev told_once : Executor World
told_once = record ended {
  is_shutdown = true;
  health_checker = some (record checker { phase = exiting });
}

abbrev before_quit : ℕ → Place
before_quit =
    update_at
      (update_at
        (update_at (update_at (λ i. elsewhere) 0 (within_routine killing flagging)) 1
          (within_routine (ending none) flagging))
        0 (within_routine killing quitting))
      1 (within_routine (ending none) quitting)

abbrev kill_stops : Threads World
kill_stops = record {
  executor = told_once;
  place =
      update_at (update_at before_quit 0 (within_routine killing pre_stopping)) 0
        (within_routine killing stopping);
  passed = 1;
}

-- Both goroutines are about to send on `Quit`, and the kill goes first, up to the container's stop.
kill_first : Run engine no_hooks test_agent (quiet checked) kill_stops
unfolding perform quit_checker run_hooks run_loop run_pre_stop_hooks ℕ_discrete
kill_first =
    goes
      (goes
        (goes
          (goes (goes (goes stands (kills 0 refl)) (container_ends 1 none refl waiting)) (
            calls 0 {s = flagging} {s' = quitting} {e = record ended { is_shutdown = true }} refl
              refl refl))
          (calls 1 {s = flagging} {s' = quitting} {e = record ended { is_shutdown = true }} refl
            refl refl))
        (calls 0 {s = quitting} {s' = pre_stopping} {e = told_once} refl refl refl))
      (calls 0 {s = pre_stopping} {s' = stopping} {e = told_once} refl refl refl)

Run-passed_example : kill_stops.passed ≤ 1
Run-passed_example = Run-passed engine no_hooks test_agent checked checker refl kill_first

Run-both_example :
    (t : Threads World) × Run engine no_hooks test_agent (quiet unchecked) t
    × (t.place 0 ≡ within_routine killing pre_stopping)
    × (t.place 1 ≡ within_routine (ending none) pre_stopping)
    × (t.passed ≡ 2)
Run-both_example = Run-both engine no_hooks test_agent unchecked none refl waiting
