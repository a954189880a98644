-- ===== src/Hook/Iptables/RoundTrip.antt =====
-- The rules of the iptables hook (hook/iptables.go) from post-run to pre-stop.
use mathlib.Core.List.{Perm}
use mathlib.Core.List.Perm
use mathlib.Core.Path.{subst, subst₂}
use go_mesos_executor.Common.{
  ◌≡◌, sym, ◌∙◌, ap, inl, inr, String, true, false, some, List, ◌++◌, str_eq,
}
use go_mesos_executor.Common.Exec.{GoError, errorf, Result, ok, continue-ok, guard-ok}
use go_mesos_executor.Common.Table.{lookup, lookup-insert_self}
use go_mesos_executor.Container.{Containerizer, Ip}
use go_mesos_executor.Hook.{Shared}
use go_mesos_executor.Hook.Firewall.{IsManaged}
use go_mesos_executor.Hook.Iptables.{
  container_interface, generate_iptables, append_fetched, post_run_rules, delete_cached,
  pre_stop_rules, iptables_post_run, iptables_pre_stop,
}
use go_mesos_executor.Hook.Iptables.Rules.{iptables_rules}
use go_mesos_executor.Mesos.{get_network, get_port_mappings}
use go_mesos_executor.Outside.{
  Viper, Iptables, IsFirewall, Rule, on_outside, on_outside-ok, on_outside-frame,
}
use go_mesos_executor.Hook.Iptables.Passes.{generate-append, generate-delete, rules_of, Appended}

abbrev no_interface : GoError
no_interface = errorf "could not retrieve container brigde interface"

module _ {O : Type 0} (viper : Viper) (d : Iptables O) (rules : O → List Rule)
    (F : IsFirewall d rules) where
  module _ (c : Containerizer O)
      (K : (id i : String) (o : O) → rules (c.container_get_ips_by_interface id i o).1 ≡ rules o)
      (id : String) where
    append_fetched-ok :
        (s s' : Shared O)
        → append_fetched viper d id c (get_port_mappings s.task_info) s ≡ (ok tt, s')
        → Appended viper d rules F id s s'
    unfolding append_fetched
    append_fetched-ok s s' p =
        let w =
          continue-ok
            (on_outside (c.container_get_ips_by_interface id (container_interface viper)) s) _ tt s'
            p in
        let fetch = c.container_get_ips_by_interface id (container_interface viper) in
        let got = on_outside-ok fetch w.first in
        let kept = on_outside-frame fetch w.first in
        let pass =
          generate_iptables viper d w.value (get_port_mappings s.task_info)
            (container_interface viper) d.append true in
        let made = on_outside-frame pass w.second in
        record {
          ips = w.value;
          task = ap (λ (x : Shared O). x.task_info) made ∙ ap (λ (x : Shared O). x.task_info) kept;
          cached =
              ap (λ (x : Shared O). lookup id x.iptables_hook_container_ip_cache) made
              ∙ lookup-insert_self id w.value w.state.iptables_hook_container_ip_cache;
          added =
              subst
                (λ l. Perm (rules s'.outside) (
                  iptables_rules viper (container_interface viper) (get_port_mappings s.task_info)
                    w.value
                  ++ l))
                (sym (ap (λ (x : Result (List Ip) × O). rules x.1) got) ∙ K id _ s.outside)
                (generate-append viper d rules F w.value (get_port_mappings s.task_info)
                  (container_interface viper) w.state.outside s'.outside
                  (on_outside-ok pass w.second));
        }

    post_run_rules-ok :
        (s s' : Shared O)
        → post_run_rules viper d id c s ≡ (ok tt, s')
        → Appended viper d rules F id s s'
    unfolding post_run_rules
    post_run_rules-ok s s' p =
        let w = continue-ok (on_outside d.new s) _ tt s' p in
        let got = on_outside-ok d.new w.first in
        let kept = on_outside-frame d.new w.first in
        let a = append_fetched-ok w.state s' (
          guard-ok (str_eq (container_interface viper) "") no_interface
            (append_fetched viper d id c (get_port_mappings w.state.task_info)) w.state w.second) in
        record {
          ips = a.ips;
          task = a.task ∙ ap (λ (x : Shared O). x.task_info) kept;
          cached = a.cached;
          added =
              subst₂
                (λ ports l.
                  Perm (rules s'.outside)
                    (iptables_rules viper (container_interface viper) ports a.ips ++ l))
                (ap (λ (x : Shared O). get_port_mappings x.task_info) kept)
                (sym (ap (λ (x : Result (Unit {0}) × O). rules x.1) got) ∙ F.new_keeps s.outside)
                a.added;
        }

    -- The rules of the container may stand among others.
    pre_stop_rules-ok :
        (s s' t t' : Shared O) (a : Appended viper d rules F id s s') (base : List Rule)
        → t.task_info ≡ s'.task_info
        → lookup id t.iptables_hook_container_ip_cache
          ≡ lookup id s'.iptables_hook_container_ip_cache
        → Perm (rules t.outside) (rules_of viper d rules F s.task_info a.ips ++ base)
        → pre_stop_rules viper d id c t ≡ (ok tt, t')
        → Perm (rules t'.outside) base
    unfolding pre_stop_rules delete_cached
    pre_stop_rules-ok s s' t t' a base task cache there p =
        let w = continue-ok (on_outside d.new t) _ tt t' p in
        let got = on_outside-ok d.new w.first in
        let kept = on_outside-frame d.new w.first in
        let found : lookup id w.state.iptables_hook_container_ip_cache ≡ some a.ips =
          ap (λ (x : Shared O). lookup id x.iptables_hook_container_ip_cache) kept
          ∙ (cache ∙ a.cached) in
        let ports : get_port_mappings w.state.task_info ≡ get_port_mappings s.task_info =
          ap (λ (x : Shared O). get_port_mappings x.task_info) kept
          ∙ ap get_port_mappings (task ∙ a.task) in
        let pass =
          generate_iptables viper d a.ips (get_port_mappings s.task_info)
            (container_interface viper) d.delete false in
        let run =
          guard-ok (str_eq (container_interface viper) "") no_interface (on_outside pass) w.state (
            subst₂ (λ ps l. delete_cached viper d id ps l w.state ≡ (ok tt, t')) ports found
              w.second) in
        generate-delete viper d rules F a.ips (get_port_mappings s.task_info)
          (container_interface viper) base w.state.outside t'.outside
          (subst (λ l. Perm l (rules_of viper d rules F s.task_info a.ips ++ base))
            (sym (F.new_keeps t.outside) ∙ ap (λ (x : Result (Unit {0}) × O). rules x.1) got) there)
          (on_outside-ok pass {s = w.state} run)

    post_run-IsManaged :
        (s : Shared O)
        → IsManaged (get_network s.task_info)
        → iptables_post_run viper d id c s ≡ post_run_rules viper d id c s
    unfolding iptables_post_run
    post_run-IsManaged s (inl e) = rw (e, iptables_post_run)
    post_run-IsManaged s (inr e) = rw (e, iptables_post_run)

    pre_stop-IsManaged :
        (s : Shared O)
        → IsManaged (get_network s.task_info)
        → iptables_pre_stop viper d id c s ≡ pre_stop_rules viper d id c s
    unfolding iptables_pre_stop
    pre_stop-IsManaged s (inl e) = rw (e, iptables_pre_stop)
    pre_stop-IsManaged s (inr e) = rw (e, iptables_pre_stop)

    pub iptables_post_run-Appended :
        (s s' : Shared O)
        → IsManaged (get_network s.task_info)
        → iptables_post_run viper d id c s ≡ (ok tt, s')
        → Appended viper d rules F id s s'
    iptables_post_run-Appended s s' managed ran =
        post_run_rules-ok s s' (sym (post_run-IsManaged s managed) ∙ ran)

    pub iptables_pre_stop-removed :
        (s s' t t' : Shared O) (a : Appended viper d rules F id s s') (base : List Rule)
        → IsManaged (get_network s.task_info)
        → t.task_info ≡ s'.task_info
        → lookup id t.iptables_hook_container_ip_cache
          ≡ lookup id s'.iptables_hook_container_ip_cache
        → Perm (rules t.outside) (rules_of viper d rules F s.task_info a.ips ++ base)
        → iptables_pre_stop viper d id c t ≡ (ok tt, t')
        → Perm (rules t'.outside) base
    iptables_pre_stop-removed s s' t t' a base managed task cache there stopped =
        let managed' : IsManaged (get_network t.task_info) =
          subst (λ n. IsManaged n) (ap get_network (sym (task ∙ a.task))) managed in
        pre_stop_rules-ok s s' t t' a base task cache there
          (sym (pre_stop-IsManaged t managed') ∙ stopped)

    -- On a bridge or user network, let the post-run hook of a container succeed. Let then its
    -- pre-stop hook succeed, at a moment when the task, the cache entry of the container and, up to
    -- their order, the installed rules are as post-run left them. Then the firewall has the rules
    -- that it had before post-run, each as often. The containerizer is assumed to look up addresses
    -- without a change of rules, and the driver to append and delete as iptables documents.
    pub iptables_pre_stop-post_run :
        (s s' t t' : Shared O)
        → IsManaged (get_network s.task_info)
        → iptables_post_run viper d id c s ≡ (ok tt, s')
        → t.task_info ≡ s'.task_info
        → lookup id t.iptables_hook_container_ip_cache
          ≡ lookup id s'.iptables_hook_container_ip_cache
        → Perm (rules t.outside) (rules s'.outside)
        → iptables_pre_stop viper d id c t ≡ (ok tt, t')
        → Perm (rules t'.outside) (rules s.outside)
    iptables_pre_stop-post_run s s' t t' managed ran task cache same stopped =
        let a = iptables_post_run-Appended s s' managed ran in
        iptables_pre_stop-removed s s' t t' a (rules s.outside) managed task cache
          (Perm.trans same a.added) stopped
