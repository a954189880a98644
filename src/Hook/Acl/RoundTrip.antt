-- ===== src/Hook/Acl/RoundTrip.antt =====
-- The rules of the acl hook (hook/acl.go) from post-run to pre-stop.
use mathlib.Core.List.{Perm}
use mathlib.Core.List.Perm
use mathlib.Core.Path.{subst, subst₂}
use go_mesos_executor.Common.{
  ◌≡◌, sym, ◌∙◌, ap, inl, inr, String, Bool, true, false, ◌||◌, List, ◌++◌, str_eq, if◌then◌else◌,
}
use go_mesos_executor.Common.Exec.{GoError, Result, ok, Exec, pure, raise, continue-ok, guard-ok}
use go_mesos_executor.Container.{Containerizer}
use go_mesos_executor.Hook.{Shared}
use go_mesos_executor.Hook.Firewall.{IsManaged, issue_all}
use go_mesos_executor.Hook.Firewall.Teardown.{append_all, delete_all}
use go_mesos_executor.Hook.Acl.{
  wrap_acl, generate_acl, has_chain, listed_chain, check_chain, apply_acl, on_managed, acl_post_run,
  acl_pre_stop,
}
use go_mesos_executor.Hook.Acl.Rules.{acl_plan, generate_acl-plan}
use go_mesos_executor.Mesos.{TaskInfo, get_network}
use go_mesos_executor.Outside.{
  Viper, Net, Iptables, IsFirewall, Rule, on_outside, on_outside-ok, on_outside-frame,
}

module _ {O : Type 0} (viper : Viper) (net : Net) (d : Iptables O) (rules : O → List Rule)
    (F : IsFirewall d rules) where
  abbrev acl_chain : String
  acl_chain = viper.get_string "acl.chain"

  picked :
      (b : Bool) (chain : String) (e : GoError) (o : O) {found : String} {o' : O}
      → (if b then pure chain else raise e) o ≡ (ok found, o')
      → (found ≡ chain) × (o' ≡ o)
  picked true chain e o p = (cc p, cc p)
  picked false chain e o p = absurd (cc p)

  listed_chain-ok :
      (chain found : String) (o o' : O)
      → listed_chain viper net d chain o ≡ (ok found, o')
      → (found ≡ chain) × (rules o' ≡ rules o)
  unfolding listed_chain
  listed_chain-ok chain found o o' p =
      let w = continue-ok (d.list_chains "filter" o) _ found o' p in
      let q = picked (has_chain chain w.value) chain _ w.state w.second in
      (
        q.0,
        ap rules q.1
            ∙ sym (ap (λ (x : Result (List String) × O). rules x.1) w.first)
            ∙ F.list_chains_keeps "filter" o,
      )

  check_chain-ok :
      (found : String) (o o' : O)
      → check_chain viper net d o ≡ (ok found, o')
      → (found ≡ acl_chain) × (rules o' ≡ rules o)
  unfolding check_chain
  check_chain-ok found o o' p = listed_chain-ok acl_chain found o o' (
      guard-ok (str_eq acl_chain "FORWARD" || str_eq acl_chain "OUTPUT") _ _ o
        (guard-ok (str_eq acl_chain "") _ _ o p))

  -- What `apply_acl` does when it returns no error.
  record Applied (action : Rule → Exec O (Unit {0})) (stop : Bool) (s s' : Shared O) : Type 0 where
    middle : O
    same : rules middle ≡ rules s.outside
    task : s'.task_info ≡ s.task_info
    cache : s'.iptables_hook_container_ip_cache ≡ s.iptables_hook_container_ip_cache
    ran : generate_acl viper net s.task_info acl_chain action stop middle ≡ (ok tt, s'.outside)

  apply_acl-ok :
      (action : Rule → Exec O (Unit {0})) (stop : Bool) (s s' : Shared O)
      → apply_acl viper net d action stop s ≡ (ok tt, s')
      → Applied action stop s s'
  unfolding apply_acl
  apply_acl-ok action stop s s' p =
      let w = continue-ok (on_outside d.new s) _ tt s' p in
      let v = continue-ok (on_outside (check_chain viper net d) w.state) _ tt s' w.second in
      let made = on_outside-ok d.new w.first in
      let kept = on_outside-frame d.new w.first in
      let found = on_outside-ok (check_chain viper net d) v.first in
      let kept2 = on_outside-frame (check_chain viper net d) v.first in
      let task : v.state.task_info ≡ s.task_info =
        ap (λ (x : Shared O). x.task_info) kept2 ∙ ap (λ (x : Shared O). x.task_info) kept in
      let chain = check_chain-ok v.value w.state.outside v.state.outside found in
      let pass = generate_acl viper net v.state.task_info v.value action stop in
      record {
        middle = v.state.outside;
        same =
            chain.1
            ∙ sym (ap (λ (x : Result (Unit {0}) × O). rules x.1) made)
            ∙ F.new_keeps s.outside;
        task = ap (λ (x : Shared O). x.task_info) (on_outside-frame pass v.second) ∙ task;
        cache =
            ap (λ (x : Shared O). x.iptables_hook_container_ip_cache)
              (on_outside-frame pass v.second)
            ∙ ap (λ (x : Shared O). x.iptables_hook_container_ip_cache) kept2
            ∙ ap (λ (x : Shared O). x.iptables_hook_container_ip_cache) kept;
        ran =
            subst₂
              (λ info ch.
                generate_acl viper net info ch action stop v.state.outside ≡ (ok tt, s'.outside))
              task chain.0 (on_outside-ok pass v.second);
      }

  on_managed-IsManaged :
      (m : Exec (Shared O) (Unit {0})) (s : Shared O)
      → IsManaged (get_network s.task_info)
      → on_managed viper net d m s ≡ m s
  unfolding on_managed
  on_managed-IsManaged m s (inl e) = rw (e, on_managed)
  on_managed-IsManaged m s (inr e) = rw (e, on_managed)

  -- An append pass that succeeds has added the rules of the plan.
  append_pass :
      (info : TaskInfo) (o o' : O)
      → generate_acl viper net info acl_chain d.append true o ≡ (ok tt, o')
      → Perm (rules o') ((acl_plan viper net acl_chain info).0 ++ rules o)
  append_pass info o o' p =
      let plan = acl_plan viper net acl_chain info in
      let w =
        continue-ok (issue_all wrap_acl true d.append plan.0 o) (λ _ t. (plan.1, t)) tt o'
          (sym (generate_acl-plan viper net acl_chain d.append true info o) ∙ p) in
      subst (λ x. Perm (rules x) (plan.0 ++ rules o))
        (ap (λ (x : Result (Unit {0}) × O). x.1) w.second)
        (append_all d rules F wrap_acl plan.0 o w.state w.first)

  -- A delete pass that succeeds, where the rules of the plan are installed, has removed them.
  delete_pass :
      (info : TaskInfo) (base : List Rule) (o o' : O)
      → Perm (rules o) ((acl_plan viper net acl_chain info).0 ++ base)
      → generate_acl viper net info acl_chain d.delete false o ≡ (ok tt, o')
      → Perm (rules o') base
  delete_pass info base o o' h p =
      let plan = acl_plan viper net acl_chain info in
      let w =
        continue-ok (issue_all wrap_acl false d.delete plan.0 o) (λ _ t. (plan.1, t)) tt o'
          (sym (generate_acl-plan viper net acl_chain d.delete false info o) ∙ p) in
      subst (λ x. Perm (rules x) base)
        (ap (λ (x : Result (Unit {0}) × O). x.1) w.first
          ∙ ap (λ (x : Result (Unit {0}) × O). x.1) w.second)
        (delete_all d rules F wrap_acl plan.0 base o h)

  -- The rules of a task.
  abbrev pub acl_rules : TaskInfo → List Rule
  acl_rules info = (acl_plan viper net acl_chain info).0

  -- What a pass of the hook that succeeded leaves alone, and the rules behind it.
  pub record Passed (s s' : Shared O) (left : List Rule) : Type 0 where
    pub task : s'.task_info ≡ s.task_info
    pub cache : s'.iptables_hook_container_ip_cache ≡ s.iptables_hook_container_ip_cache
    pub now : Perm (rules s'.outside) left

  pub acl_post_run-Passed :
      (c : Containerizer O) (id : String) (s s' : Shared O)
      → IsManaged (get_network s.task_info)
      → acl_post_run viper net d id c s ≡ (ok tt, s')
      → Passed s s' (acl_rules s.task_info ++ rules s.outside)
  unfolding acl_post_run
  acl_post_run-Passed c id s s' managed up =
      let a =
        apply_acl-ok d.append true s s'
          (sym (on_managed-IsManaged (apply_acl viper net d d.append true) s managed) ∙ up) in
      record {
        task = a.task;
        cache = a.cache;
        now =
            subst (λ l. Perm (rules s'.outside) (acl_rules s.task_info ++ l)) a.same
              (append_pass s.task_info a.middle s'.outside a.ran);
      }

  -- The rules of the task may stand among others.
  pub acl_pre_stop-Passed :
      (c : Containerizer O) (id : String) (t t' : Shared O) (base : List Rule)
      → IsManaged (get_network t.task_info)
      → Perm (rules t.outside) (acl_rules t.task_info ++ base)
      → acl_pre_stop viper net d id c t ≡ (ok tt, t')
      → Passed t t' base
  unfolding acl_pre_stop
  acl_pre_stop-Passed c id t t' base managed there down =
      let b =
        apply_acl-ok d.delete false t t'
          (sym (on_managed-IsManaged (apply_acl viper net d d.delete false) t managed) ∙ down) in
      record {
        task = b.task;
        cache = b.cache;
        now =
            delete_pass t.task_info base b.middle t'.outside
              (subst (λ l. Perm l (acl_rules t.task_info ++ base)) (sym b.same) there) b.ran;
      }

  -- On a bridge or user network, let the post-run hook of a container succeed. Let then its
  -- pre-stop hook succeed, at a moment when the task and, up to their order, the installed rules are
  -- as post-run left them. Then the firewall has the rules that it had before post-run, each as
  -- often. The driver is assumed to append and delete as iptables documents.
  pub acl_pre_stop-post_run :
      (c : Containerizer O) (id : String) (s s' t t' : Shared O)
      → IsManaged (get_network s.task_info)
      → acl_post_run viper net d id c s ≡ (ok tt, s')
      → t.task_info ≡ s'.task_info
      → Perm (rules t.outside) (rules s'.outside)
      → acl_pre_stop viper net d id c t ≡ (ok tt, t')
      → Perm (rules t'.outside) (rules s.outside)
  acl_pre_stop-post_run c id s s' t t' managed up task same down =
      let a = acl_post_run-Passed c id s s' managed up in
      let task' : t.task_info ≡ s.task_info = task ∙ a.task in
      (acl_pre_stop-Passed c id t t' (rules s.outside)
        (subst (λ n. IsManaged n) (ap get_network (sym task')) managed)
        (subst (λ info. Perm (rules t.outside) (acl_rules info ++ rules s.outside)) (sym task')
          (Perm.trans same a.now))
        down).now
