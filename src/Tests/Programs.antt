-- ===== src/Tests/Programs.antt =====
-- Runs of the program from its arguments on, in the small world.
use go_mesos_executor.Common.{◌≡◌, refl, String, true, some, none, [], str_eq, if◌then◌else◌}
use go_mesos_executor.Common.Exec.{pure}
use go_mesos_executor.Common.Table.{insert, lookup}
use go_mesos_executor.Hook.{
  Manager, new_manager, register_hooks, sort_by_priority, run_hooks, run_loop, run_pre_stop_hooks,
  run_post_stop_hooks,
}
use go_mesos_executor.Mesos.{TaskStatus, kill, task_killed}
use go_mesos_executor.Executor.{
  Agent, Executor, quit_checker, new_status, update_status, stop_task, tear_down, new_executor,
}
use go_mesos_executor.Executor.Handlers.{handle_kill, report_killed}
use go_mesos_executor.Executor.Ledger.Refines.{Took}
use go_mesos_executor.Executor.Loop.{subscribing, handle_stop_signal, signalled, here, next}
use go_mesos_executor.Wiring.{main_manager}
use go_mesos_executor.Wiring.Flags.{Cli, Process, zero_globals, init, read_config}
use go_mesos_executor.Wiring.Program.{Program, run_command, parse_arguments, main_program}
use go_mesos_executor.Wiring.Program.Whole.{IsSetUp, main_program-IsSetUp, main_program-pending}
use go_mesos_executor.Tests.World.{
  World, agent_of, engine, test_viper, test_net, test_os, test_iptables,
}

-- The environment names the executor, and `hooks` is empty.
abbrev test_cli : Cli World
test_cli = record {
  declare_flag = λ name d o. o;
  bind_pflag = λ name o. o;
  set_default = λ name b o. o;
  parse = λ g. pure (record g { container_name = "mesos-web"; docker_socket = "/docker.sock" });
  set_env_prefix = λ s o. o;
  set_config_name = λ s o. o;
  add_config_path = λ s o. o;
  bind_env = λ s o. o;
  get_string = λ key o.
      if str_eq key "agent_endpoint"
      then "127.0.0.1:5051"
      else (if str_eq key "executor_id" then "executor" else "framework");
  get_string_slice = λ key o. [];
  read_in_config = pure tt;
}

abbrev killing_agent : String → Agent World
killing_agent url = agent_of kill

abbrev process : Process World
process = record { globals = zero_globals; outside = [] }

abbrev prepared : Process World
prepared = record {
  globals = record zero_globals {
    agent_endpoint = "127.0.0.1:5051";
    container_name = "mesos-web";
    docker_socket = "/docker.sock";
    executor_id = "executor";
    framework_id = "framework";
    initialize_driver_logging = true;
  };
  outside = [];
}

abbrev started : Executor World
started =
    new_executor
      (record {
        agent_endpoint = "127.0.0.1:5051";
        container_name = "mesos-web";
        executor_id = "executor";
        framework_id = "framework";
      })
      []

abbrev test_manager : Manager World
test_manager = main_manager test_viper test_net test_os test_iptables []

abbrev program : Program World
program = record {
  containerizer = engine;
  manager = test_manager;
  agent = agent_of kill;
  executor = started;
}

main_program-IsSetUp_example :
    IsSetUp test_cli test_viper test_net test_os test_iptables
      (λ socket. pure engine)
      killing_agent
      program
      prepared
unfolding main_program init parse_arguments read_config run_command
main_program-IsSetUp_example =
    main_program-IsSetUp test_cli test_viper test_net test_os test_iptables (λ socket. pure engine)
      killing_agent process prepared program refl

abbrev killed : Executor World
killed = (handle_stop_signal engine test_manager (agent_of kill) started).1

abbrev killed_status : TaskStatus
killed_status = record {
  executor_id = "";
  task_id = "";
  uuid = "uuid-1";
  state = some task_killed;
  message = none;
  healthy = none;
}

main_program-pending_example :
    (killed_status.uuid ≡ "uuid-1") × Took program.agent "executor" "framework" killed_status
unfolding main_program init parse_arguments read_config run_command main_manager new_manager
    register_hooks sort_by_priority new_executor handle_stop_signal handle_kill report_killed
    tear_down quit_checker stop_task run_pre_stop_hooks run_post_stop_hooks run_hooks run_loop
    new_status update_status lookup insert
main_program-pending_example =
    main_program-pending test_cli test_viper test_net test_os test_iptables (λ socket. pure engine)
      killing_agent process prepared program {t = (subscribing, killed)} "uuid-1" killed_status refl
      (next here (signalled {p = subscribing} {e = started} {e' = killed} refl)) refl
