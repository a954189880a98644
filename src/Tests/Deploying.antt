-- ===== src/Tests/Deploying.antt =====
-- A launch with the containerizer for Docker, in the small world.
use go_mesos_executor.Common.{◌≡◌, refl, false, none, [], ◌∷◌, arith}
use go_mesos_executor.Common.Exec.{ok, pure}
use go_mesos_executor.Common.Text.{split, itoa}
use go_mesos_executor.Common.Table.{insert, erase}
use go_mesos_executor.Container.Docker.{
  create_options, container_create, container_run, container_get_pid, network_mode_of, bind_ports,
  binds_of,
}
use go_mesos_executor.Container.Docker.Addresses.{container_get_ips_by_interface}
use go_mesos_executor.Hook.{
  Manager, run_pre_create_hooks, run_pre_run_hooks, run_loop, run_hooks, run_post_run_hooks,
}
use go_mesos_executor.Hook.Acl.{
  acl_rule, label_port, parse_ips, external_interface, generate_acl, check_chain, acl_post_run,
  acl_hook,
}
use go_mesos_executor.Hook.Acl.LabelKey.{find_port_index, atoi}
use go_mesos_executor.Hook.Firewall.{issue}
use go_mesos_executor.Hook.Iptables.{
  dnat_rule, self_masquerade_rule, masquerade_rule, forward_in_rule, forward_out_rule, check_chains,
  generate_iptables, iptables_post_run, iptables_hook,
}
use go_mesos_executor.Executor.{
  Agent, Executor, new_status, update_status, get_memory_limit, get_cpu_shares_limit, get_resource,
}
use go_mesos_executor.Executor.Handlers.{
  handle_launch, create_and_run, start_health_check, report_running,
}
use go_mesos_executor.Executor.Launch.Limits.{Limited, handle_launch-Limited}
use go_mesos_executor.Executor.Teardown.{Listens}
use go_mesos_executor.Mesos.{get_value, kill}
use go_mesos_executor.Namespace.{Thread, enter_network_namespace, exit_network_namespace}
use go_mesos_executor.Tests.Docker.{
  engine, begun, world_client, world_interfaces, world_netns, world_exec, thread_iptables,
}
use go_mesos_executor.Tests.World.{World, web_task, memory, cores, test_viper, test_net}

abbrev firewall : Manager (Thread World)
firewall = record {
  enabled_hooks = "acl" ∷ "iptables" ∷ [];
  hooks =
      acl_hook test_viper test_net thread_iptables ∷ iptables_hook test_viper thread_iptables ∷ [];
}

abbrev test_agent : Agent (Thread World)
test_agent = record { do_call = λ call. pure tt; decode = pure kill; new_uuid = λ t. ("uuid-1", t) }

abbrev idle : Executor (Thread World)
idle = record {
  agent_info = record { hostname = "agent" };
  container_id = "";
  container_name = "mesos-web";
  executor_id = "executor";
  executor_info = record { executor_id = "executor" };
  framework_id = "framework";
  health_checker = none;
  is_shutdown = false;
  unacked_updates = [];
  goroutines = [];
  shared = begun;
}

abbrev launched : Executor (Thread World)
launched = (handle_launch engine firewall test_agent web_task idle).1

launch_ran :
    (handle_launch engine firewall test_agent web_task idle ≡ (ok tt, launched))
    × Listens launched.health_checker
unfolding handle_launch create_and_run start_health_check report_running new_status update_status
    get_memory_limit get_cpu_shares_limit get_resource run_pre_create_hooks run_pre_run_hooks
    run_post_run_hooks run_hooks run_loop acl_hook iptables_hook acl_post_run generate_acl
    check_chain issue acl_rule label_port parse_ips external_interface find_port_index atoi
    iptables_post_run generate_iptables check_chains dnat_rule self_masquerade_rule masquerade_rule
    forward_in_rule forward_out_rule split itoa insert erase container_create create_options
    network_mode_of bind_ports binds_of container_run container_get_pid
    container_get_ips_by_interface enter_network_namespace exit_network_namespace
launch_ran = (refl, refl)

handle_launch-Limited_example :
    Limited world_interfaces test_viper world_netns "host" world_client world_exec 5 firewall
      test_agent "mesos-web"
      (get_value memory)
      (get_value cores)
unfolding get_resource
handle_launch-Limited_example =
    handle_launch-Limited world_interfaces test_viper world_netns "host" world_client world_exec 5
      firewall test_agent web_task idle launched memory cores launch_ran.0 refl refl (omega arith)
      (omega arith)
