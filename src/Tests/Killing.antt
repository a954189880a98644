-- ===== src/Tests/Killing.antt =====
-- Runs of teardowns, kills and status updates in the small world.
use go_mesos_executor.Common.{◌≡◌, refl, true, none, some, [], ◌∷◌, inl}
use go_mesos_executor.Common.Exec.{ok, pure, fault, blocked}
use go_mesos_executor.Mesos.{kill, task_killed}
use go_mesos_executor.Hook.Netns.{netns_hook, netns_post_stop}
use go_mesos_executor.Hook.{Manager, run_hooks, run_loop, run_pre_stop_hooks, run_post_stop_hooks}
use go_mesos_executor.Executor.{
  Agent, Executor, Checker, CheckerPhase, active, quit_checker, new_status, update_status,
  stop_task, tear_down,
}
use go_mesos_executor.Executor.Handlers.{handle_kill, wait_for_container}
use go_mesos_executor.Executor.Teardown.{
  told, teardown_of, tear_down-attempt_all, handle_kill-after_finish,
}
use go_mesos_executor.Executor.Loop.{handling, finished, main_steps}
use go_mesos_executor.Executor.Loop.Killed.{main_steps-killed}
use go_mesos_executor.Common.Int.{pos}
use go_mesos_executor.Container.{Containerizer}
use go_mesos_executor.Executor.Exited.{Exited, wait_for_container-Exited}
use go_mesos_executor.Executor.Obliging.{IsObliging, Reported}
use go_mesos_executor.Tests.World.{
  World, agent_of, engine, no_hooks, executor_with, test_viper, test_os,
}

abbrev checker_at : CheckerPhase → Checker
checker_at phase = record { pid = 666; container_id = "c1"; phase = phase }

abbrev checked : Executor World
checked = executor_with (some (checker_at active))

abbrev test_agent : Agent World
test_agent = agent_of kill

tear_down-attempt_all_example :
    tear_down engine no_hooks checked
    ≡ teardown_of engine no_hooks "c1"
        (record checked { health_checker = told checked.health_checker })
tear_down-attempt_all_example = tear_down-attempt_all engine no_hooks checked refl

abbrev ended : Executor World
ended = (wait_for_container engine no_hooks test_agent checked).1

handle_kill-after_finish_example :
    handle_kill engine no_hooks test_agent ended
    ≡ (fault (blocked "Quit"), record ended { is_shutdown = true })
unfolding wait_for_container tear_down quit_checker stop_task run_pre_stop_hooks run_post_stop_hooks
    run_hooks run_loop new_status update_status
handle_kill-after_finish_example =
    handle_kill-after_finish engine no_hooks test_agent checked ended (checker_at active) refl refl

abbrev pub linked : Manager World
linked = record { enabled_hooks = "netns" ∷ []; hooks = netns_hook test_viper test_os ∷ [] }

pub linked-IsObliging : IsObliging engine linked test_agent
unfolding netns_hook netns_post_stop run_pre_stop_hooks run_post_stop_hooks run_hooks run_loop
linked-IsObliging = record {
  pre_stops = λ id s. tt;
  stops = λ id o. tt;
  post_stops = λ id s. tt;
  takes = λ call o. refl;
}

main_steps-killed_example :
    (e' : Executor World) × (main_steps engine linked test_agent 3 handling checked
      ≡ (ok (finished none), e'))
    × Reported task_killed none e'
main_steps-killed_example =
    main_steps-killed engine linked test_agent linked-IsObliging kill checked checked.shared.outside
      (inl refl) refl refl refl

-- The containerizer whose containers end with the exit code 137.
abbrev killed_engine : Containerizer World
killed_engine = record engine { container_wait = λ id. pure (pos 137) }

killed_engine-IsObliging : IsObliging killed_engine linked test_agent
unfolding netns_hook netns_post_stop run_pre_stop_hooks run_post_stop_hooks run_hooks run_loop
killed_engine-IsObliging = record {
  pre_stops = λ id s. tt;
  stops = λ id o. tt;
  post_stops = λ id s. tt;
  takes = λ call o. refl;
}

wait_for_container-Exited_example :
    Exited killed_engine linked
      (pos 137)
      checked
      (wait_for_container killed_engine linked test_agent checked)
wait_for_container-Exited_example =
    wait_for_container-Exited killed_engine linked test_agent killed_engine-IsObliging checked
      checked.shared.outside (pos 137) refl refl
