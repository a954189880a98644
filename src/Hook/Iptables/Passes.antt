-- ===== src/Hook/Iptables/Passes.antt =====
-- The passes of the iptables hook (hook/iptables.go) over its rules, and what is left of a post-run.
use mathlib.Core.List.{Perm}
use mathlib.Core.Path.{subst}
use go_mesos_executor.Common.{◌≡◌, sym, ◌∙◌, ap, String, true, false, some, List, ◌++◌, arith}
use go_mesos_executor.Common.Exec.{Result, ok, continue-ok, continue-keeps}
use go_mesos_executor.Common.Table.{lookup}
use go_mesos_executor.Container.{Ip}
use go_mesos_executor.Hook.{Shared}
use go_mesos_executor.Hook.Firewall.Teardown.{append_all, delete_all}
use go_mesos_executor.Hook.Iptables.{
  same_error, check_listed, check_chains, container_interface, generate_iptables,
}
use go_mesos_executor.Hook.Iptables.Rules.{iptables_rules, generate_iptables-issue_all}
use go_mesos_executor.Mesos.{PortMapping, TaskInfo, get_port_mappings}
use go_mesos_executor.Outside.{Viper, Iptables, IsFirewall, Rule}

module _ {O : Type 0} (viper : Viper) (d : Iptables O) (rules : O → List Rule)
    (F : IsFirewall d rules) where
  check_listed-keeps :
      (table chain message : String) (o : O)
      → rules (check_listed viper d table chain message o).1 ≡ rules o
  unfolding check_listed
  check_listed-keeps table chain message o = ground (arith, F.list_keeps table chain o)

  check_chains-keeps : (o : O) → rules (check_chains viper d o).1 ≡ rules o
  unfolding check_chains
  check_chains-keeps o =
      continue-keeps rules (check_listed viper d _ _ _ o) _ (check_listed-keeps _ _ _ o) (λ _ o2.
        continue-keeps rules (check_listed viper d _ _ _ o2) _ (check_listed-keeps _ _ _ o2)
          (λ _ o3. check_listed-keeps _ _ _ o3))

  module _ (ips : List Ip) (ports : List PortMapping) (interface : String) where
    -- An append pass that succeeds has added the rules of the list.
    pub generate-append :
        (o o' : O)
        → generate_iptables viper d ips ports interface d.append true o ≡ (ok tt, o')
        → Perm (rules o') (iptables_rules viper interface ports ips ++ rules o)
    generate-append o o' p =
        let w =
          continue-ok (check_chains viper d o) _ tt o'
            (sym (generate_iptables-issue_all viper d interface d.append true ips ports o) ∙ p) in
        subst (λ l. Perm (rules o') (iptables_rules viper interface ports ips ++ l))
          (sym (ap (λ (x : Result (Unit {0}) × O). rules x.1) w.first) ∙ check_chains-keeps o)
          (append_all d rules F same_error (iptables_rules viper interface ports ips) w.state o'
            w.second)

    -- A delete pass that succeeds, where the rules of the list are installed, has removed them.
    pub generate-delete :
        (base : List Rule) (o o' : O)
        → Perm (rules o) (iptables_rules viper interface ports ips ++ base)
        → generate_iptables viper d ips ports interface d.delete false o ≡ (ok tt, o')
        → Perm (rules o') base
    generate-delete base o o' h p =
        let w =
          continue-ok (check_chains viper d o) _ tt o'
            (sym (generate_iptables-issue_all viper d interface d.delete false ips ports o) ∙ p) in
        subst (λ x. Perm (rules x) base) (ap (λ (x : Result (Unit {0}) × O). x.1) w.second)
          (delete_all d rules F same_error (iptables_rules viper interface ports ips) base w.state (
            subst (λ l. Perm l (iptables_rules viper interface ports ips ++ base))
              (sym (
                sym (ap (λ (x : Result (Unit {0}) × O). rules x.1) w.first) ∙ check_chains-keeps o))
              h))

  -- The rules of a task with these addresses.
  abbrev pub rules_of : TaskInfo → List Ip → List Rule
  rules_of info ips = iptables_rules viper (container_interface viper) (get_port_mappings info) ips

  -- What a post-run that succeeded has done for the container `id`.
  pub record Appended (id : String) (s s' : Shared O) : Type 0 where
    pub ips : List Ip
    pub task : s'.task_info ≡ s.task_info
    pub cached : lookup id s'.iptables_hook_container_ip_cache ≡ some ips
    pub added : Perm (rules s'.outside) (
        iptables_rules viper (container_interface viper) (get_port_mappings s.task_info) ips
        ++ rules s.outside)
