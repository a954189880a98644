-- ===== src/Tests/Restoring.antt =====
-- Both hooks of the firewall in the manager of the program, in the small world.
use mathlib.Core.List.{Perm}
use go_mesos_executor.Common.{◌≡◌, refl, true, none, [], ◌∷◌, inl}
use go_mesos_executor.Common.Exec.{ok}
use go_mesos_executor.Common.Text.{split, itoa}
use go_mesos_executor.Common.Table.{insert, erase, lookup}
use go_mesos_executor.Hook.{
  Shared, Manager, pre_stop, run_pre_create_hooks, run_pre_run_hooks, run_loop, run_hooks,
  run_post_run_hooks, run_pre_stop_hooks,
}
use go_mesos_executor.Hook.Acl.{
  acl_rule, label_port, parse_ips, external_interface, generate_acl, check_chain, acl_post_run,
  acl_pre_stop, acl_hook,
}
use go_mesos_executor.Hook.Acl.LabelKey.{find_port_index, atoi}
use go_mesos_executor.Hook.Firewall.{issue}
use go_mesos_executor.Hook.Iptables.{
  dnat_rule, self_masquerade_rule, masquerade_rule, forward_in_rule, forward_out_rule, check_chains,
  generate_iptables, iptables_post_run, iptables_pre_stop, iptables_hook,
}
use go_mesos_executor.Executor.{
  Agent, Executor, new_status, update_status, get_memory_limit, get_cpu_shares_limit, get_resource,
}
use go_mesos_executor.Executor.Handlers.{
  handle_launch, handle_kill, create_and_run, start_health_check, report_running,
}
use go_mesos_executor.Executor.Launch.Running.{Ready, handle_launch-Ready}
use go_mesos_executor.Executor.Teardown.{Listens}
use go_mesos_executor.Executor.Restore.{IsNeutral}
use go_mesos_executor.Executor.Restore.Firewall.{handle_kill-handle_launch}
use go_mesos_executor.Mesos.{kill}
use go_mesos_executor.Tests.World.{
  World, agent_of, executor_with, engine, web_task, test_viper, test_net, test_iptables, installed,
  test_iptables-IsFirewall, remove_rule,
}

abbrev firewall : Manager World
firewall = record {
  enabled_hooks = "acl" ∷ "iptables" ∷ [];
  hooks = acl_hook test_viper test_net test_iptables ∷ iptables_hook test_viper test_iptables ∷ [];
}

abbrev test_agent : Agent World
test_agent = agent_of kill

abbrev idle : Executor World
idle = executor_with none

abbrev launched : Executor World
launched = (handle_launch engine firewall test_agent web_task idle).1

abbrev unexposed : Shared World
unexposed = (run_hooks pre_stop firewall engine launched.container_id true launched.shared).1

test_agent-IsNeutral : IsNeutral engine test_agent installed
test_agent-IsNeutral = record {
  create_keeps = λ info o. refl;
  run_keeps = λ id o. refl;
  stop_keeps = λ id o. refl;
  pid_keeps = λ id o. refl;
  ips_keeps = λ id i o. refl;
  call_keeps = λ call o. refl;
  uuid_keeps = λ o. refl;
}

-- The launch succeeds, and the health checker that it started listens.
launch_ran :
    (handle_launch engine firewall test_agent web_task idle ≡ (ok tt, launched))
    × Listens launched.health_checker
unfolding handle_launch create_and_run start_health_check report_running new_status update_status
    get_memory_limit get_cpu_shares_limit get_resource run_pre_create_hooks run_pre_run_hooks
    run_post_run_hooks run_hooks run_loop acl_hook iptables_hook acl_post_run generate_acl
    check_chain issue acl_rule label_port parse_ips external_interface find_port_index atoi
    iptables_post_run generate_iptables check_chains dnat_rule self_masquerade_rule masquerade_rule
    forward_in_rule forward_out_rule split itoa insert erase
launch_ran = (refl, refl)

handle_launch-Ready_example : Ready engine firewall test_agent idle launched
handle_launch-Ready_example =
    handle_launch-Ready engine firewall test_agent web_task idle launched launch_ran.0

handle_kill-handle_launch_example :
    Perm (handle_kill engine firewall test_agent launched).1.outside idle.outside
unfolding run_pre_create_hooks run_pre_run_hooks run_post_run_hooks run_pre_stop_hooks run_hooks
    run_loop acl_hook iptables_hook acl_post_run acl_pre_stop generate_acl check_chain issue
    acl_rule label_port parse_ips external_interface find_port_index atoi iptables_post_run
    iptables_pre_stop generate_iptables check_chains dnat_rule self_masquerade_rule masquerade_rule
    forward_in_rule forward_out_rule split itoa insert erase lookup remove_rule handle_launch
    create_and_run start_health_check report_running new_status update_status get_memory_limit
    get_cpu_shares_limit get_resource
handle_kill-handle_launch_example =
    handle_kill-handle_launch test_viper test_net test_iptables installed test_iptables-IsFirewall
      engine firewall test_agent test_agent-IsNeutral refl web_task idle launched unexposed
      (inl refl) launch_ran.0 launch_ran.1 refl
