-- ===== src/Tests/Rules.antt =====
-- Runs of the hooks that change the firewall or the disk, in the small world.
use mathlib.Core.List.{Perm}
use mathlib.Core.List.Perm
use go_mesos_executor.Common.{◌≡◌, refl, true, false, [], ◌∷◌, inl, map}
use go_mesos_executor.Common.Exec.{continue}
use go_mesos_executor.Common.Text.{split, itoa}
use go_mesos_executor.Common.Table.{insert, erase, lookup}
use go_mesos_executor.Hook.{Shared}
use go_mesos_executor.Hook.Acl.{
  acl_rule, label_port, parse_ips, external_interface, generate_acl, check_chain, acl_post_run,
  acl_pre_stop,
}
use go_mesos_executor.Hook.Acl.LabelKey.{find_port_index, atoi}
use go_mesos_executor.Hook.Acl.Rules.{acl_plan, then_plan, follow, generate_acl-plan}
use go_mesos_executor.Hook.Acl.RoundTrip.{acl_pre_stop-post_run}
use go_mesos_executor.Hook.Firewall.{issue, issue_all}
use go_mesos_executor.Hook.Iptables.{
  dnat_rule, self_masquerade_rule, masquerade_rule, forward_in_rule, forward_out_rule, same_error,
  check_chains, generate_iptables, iptables_post_run, iptables_pre_stop,
}
use go_mesos_executor.Hook.Iptables.Rules.{iptables_rules, generate_iptables-issue_all}
use go_mesos_executor.Hook.Iptables.RoundTrip.{iptables_pre_stop-post_run}
use go_mesos_executor.Hook.Netns.{link_path, netns_post_run, netns_post_stop}
use go_mesos_executor.Hook.Netns.Link.{Linked, netns_post_stop-post_run}
use go_mesos_executor.Mesos.{get_port_mappings}
use go_mesos_executor.Outside.{Rule, on_outside}
use go_mesos_executor.Tests.World.{
  World, engine, shared_of, web_task, test_viper, test_net, test_iptables, test_os, installed,
  test_iptables-IsFirewall, remove_rule,
}

abbrev initial : Shared World
initial = shared_of web_task

abbrev guarded : Shared World
guarded = (acl_post_run test_viper test_net test_iptables "c1" engine initial).1

abbrev unguarded : Shared World
unguarded = (acl_pre_stop test_viper test_net test_iptables "c1" engine guarded).1

acl_pre_stop-post_run_example : Perm unguarded.outside initial.outside
unfolding acl_post_run acl_pre_stop generate_acl check_chain issue acl_rule label_port parse_ips
    external_interface find_port_index atoi split itoa remove_rule
acl_pre_stop-post_run_example =
    acl_pre_stop-post_run test_viper test_net test_iptables installed test_iptables-IsFirewall
      engine "c1" initial guarded guarded unguarded (inl refl) refl refl (Perm.refl _) refl

abbrev exposed : Shared World
exposed = (iptables_post_run test_viper test_iptables "c1" engine initial).1

abbrev unexposed : Shared World
unexposed = (iptables_pre_stop test_viper test_iptables "c1" engine exposed).1

iptables_pre_stop-post_run_example : Perm unexposed.outside initial.outside
unfolding iptables_post_run iptables_pre_stop generate_iptables check_chains issue dnat_rule
    self_masquerade_rule masquerade_rule forward_in_rule forward_out_rule split itoa insert erase
    lookup remove_rule
iptables_pre_stop-post_run_example =
    iptables_pre_stop-post_run test_viper test_iptables installed test_iptables-IsFirewall engine
      (λ id i o. refl) "c1" initial exposed exposed unexposed (inl refl) refl refl refl
      (Perm.refl _) refl

generate_iptables-issue_all_example :
    generate_iptables test_viper test_iptables
      ("172.17.0.2" ∷ [])
      (get_port_mappings web_task)
      "docker0"
      test_iptables.append
      true
      []
    ≡ continue (check_chains test_viper test_iptables []) (λ _.
      issue_all same_error true test_iptables.append
        (iptables_rules test_viper "docker0" (get_port_mappings web_task) ("172.17.0.2" ∷ [])))
generate_iptables-issue_all_example =
    generate_iptables-issue_all test_viper test_iptables "docker0" test_iptables.append true
      ("172.17.0.2" ∷ []) (get_port_mappings web_task) []

generate_acl-plan_example :
    generate_acl test_viper test_net web_task "ACCESS" test_iptables.delete false []
    ≡ follow test_iptables.delete false (acl_plan test_viper test_net "ACCESS" web_task) []
generate_acl-plan_example =
    generate_acl-plan test_viper test_net "ACCESS" test_iptables.delete false web_task []

-- One label that opens a port to an address and a network, and the default network.
acl_plan_runs :
    map (λ (r : Rule). r.words) (acl_plan test_viper test_net "ACCESS" web_task).0
    ≡ ("-i" ∷ "FORWARD" ∷ "-p" ∷ "tcp" ∷ "-s" ∷ "1.2.3.4/32" ∷ "--dport" ∷ "31000" ∷ "-j" ∷ "ACCEPT"
        ∷ [])
      ∷ ("-i" ∷ "FORWARD" ∷ "-p" ∷ "tcp" ∷ "-s" ∷ "10.1.0.0/16" ∷ "--dport" ∷ "31000" ∷ "-j"
          ∷ "ACCEPT" ∷ [])
      ∷ ("-i" ∷ "FORWARD" ∷ "-p" ∷ "tcp" ∷ "-s" ∷ "10.0.0.0/8" ∷ "--dport" ∷ "31000" ∷ "-j"
          ∷ "ACCEPT" ∷ [])
      ∷ []
unfolding acl_plan acl_rule label_port parse_ips external_interface find_port_index atoi split itoa
    then_plan
acl_plan_runs = refl

abbrev linked : Shared World
linked = (netns_post_run test_viper test_os "c1" engine initial).1

netns_post_stop-post_run_example :
    Linked test_viper test_os engine "c1" initial linked
    × (netns_post_stop test_viper test_os "c1" engine linked
        ≡ on_outside (test_os.remove (link_path test_viper test_os "web.1")) linked)
unfolding netns_post_run
netns_post_stop-post_run_example =
    netns_post_stop-post_run test_viper test_os engine "c1" "c1" initial linked linked refl refl
