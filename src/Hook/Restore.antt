-- ===== src/Hook/Restore.antt =====
-- The acl and the iptables hook in one manager (hook/hook_manager.go), from post-run to pre-stop.
use mathlib.Core.List.{Perm, append_assoc, perm_append_comm}
use mathlib.Core.List.Perm
use mathlib.Core.Path.{subst, subst₂}
use go_mesos_executor.Common.{
  ◌≡◌, refl, sym, ◌∙◌, ap, String, Bool, true, false, List, [], ◌∷◌, ◌++◌,
}
use go_mesos_executor.Common.Exec.{Result, ok, err, fault, Exec}
use go_mesos_executor.Common.Table.{lookup}
use go_mesos_executor.Container.{Containerizer}
use go_mesos_executor.Hook.{
  Shared, Hook, Manager, pre_stop, post_run, after_hook, run_loop, run_hooks, run_post_run_hooks,
  run_pre_stop_hooks,
}
use go_mesos_executor.Hook.Acl.{acl_hook, acl_post_run, acl_pre_stop}
use go_mesos_executor.Hook.Acl.RoundTrip.{acl_post_run-Passed, acl_pre_stop-Passed, acl_rules}
use go_mesos_executor.Hook.Firewall.{IsManaged}
use go_mesos_executor.Hook.Iptables.{iptables_hook, iptables_post_run, iptables_pre_stop}
use go_mesos_executor.Hook.Iptables.Passes.{rules_of}
use go_mesos_executor.Hook.Iptables.RoundTrip.{
  iptables_post_run-Appended, iptables_pre_stop-removed,
}
use go_mesos_executor.Mesos.{get_network}
use go_mesos_executor.Outside.{Viper, Net, Iptables, IsFirewall, Rule}

module _ {O : Type 0} where
  -- Two hooks in a row that succeeded.
  record Ran (x y : Exec (Shared O) (Unit {0})) (s s' : Shared O) : Type 0 where
    between : Shared O
    first : x s ≡ (ok tt, between)
    second : y between ≡ (ok tt, s')

  -- A run of two hooks, the errors of which end it or do not.
  abbrev two :
      Bool → Exec (Shared O) (Unit {0}) → Exec (Shared O) (Unit {0}) → Exec (Shared O) (Unit {0})
  two exit x y s = after_hook exit (x s) (λ t. after_hook exit (y t) (λ u. (ok tt, u)))

  last-Ran :
      (r : Result (Unit {0}) × Shared O) {s' : Shared O}
      → after_hook true r (λ u. (ok tt, u)) ≡ (ok tt, s')
      → (r ≡ (ok tt, s')) × (after_hook false r (λ u. (ok tt, u)) ≡ (ok tt, s'))
  last-Ran (ok u, s) p = (p, p)
  last-Ran (err x, s) p = absurd (cc p)
  last-Ran (fault x, s) p = absurd (cc p)

  first-Ran :
      (x y : Exec (Shared O) (Unit {0})) (s s' : Shared O) (r : Result (Unit {0}) × Shared O)
      → x s ≡ r
      → after_hook true r (λ t. after_hook true (y t) (λ u. (ok tt, u))) ≡ (ok tt, s')
      → Ran x y s s'
        × (after_hook false r (λ t. after_hook false (y t) (λ u. (ok tt, u))) ≡ (ok tt, s'))
  first-Ran x y s s' (ok u, t) e p =
      let q = last-Ran (y t) p in (record { between = t; first = e; second = q.0 }, q.1)
  first-Ran x y s s' (err z, t) e p = absurd (cc p)
  first-Ran x y s s' (fault z, t) e p = absurd (cc p)

  -- Where neither hook fails, errors do not matter.
  two-Ran :
      (x y : Exec (Shared O) (Unit {0})) (s s' : Shared O)
      → two true x y s ≡ (ok tt, s')
      → Ran x y s s' × (two false x y s ≡ (ok tt, s'))
  two-Ran x y s s' p = first-Ran x y s s' (x s) refl p

-- The two hooks, in the order of the program.
abbrev pub both : {O : Type 0} → Viper → Net → Iptables O → List (Hook O)
both viper net d = acl_hook viper net d ∷ iptables_hook viper d ∷ []

module _ {O : Type 0} (viper : Viper) (net : Net) (d : Iptables O) (rules : O → List Rule)
    (F : IsFirewall d rules) (c : Containerizer O)
    (K : (id i : String) (o : O)
      → rules (c.container_get_ips_by_interface id i o).1 ≡ rules o) where
  both_run :
      (id : String) (s s' : Shared O)
      → run_loop post_run c id true (both viper net d) s ≡ (ok tt, s')
      → Ran (acl_post_run viper net d id c) (iptables_post_run viper d id c) s s'
  unfolding run_loop acl_hook iptables_hook
  both_run id s s' p =
      (two-Ran (acl_post_run viper net d id c) (iptables_post_run viper d id c) s s' p).0

  both_stopped :
      (id : String) (t t' : Shared O)
      → run_loop pre_stop c id true (both viper net d) t ≡ (ok tt, t')
      → Ran (acl_pre_stop viper net d id c) (iptables_pre_stop viper d id c) t t'
        × (run_loop pre_stop c id false (both viper net d) t ≡ (ok tt, t'))
  unfolding run_loop acl_hook iptables_hook
  both_stopped id t t' p =
      two-Ran (acl_pre_stop viper net d id c) (iptables_pre_stop viper d id c) t t' p

  -- The rules of the first hook, below those of the second.
  below :
      (xs ys base rs : List Rule) (l : List Rule)
      → Perm l (ys ++ rs)
      → Perm rs (xs ++ base)
      → Perm l (xs ++ (ys ++ base))
  below xs ys base rs l p q = Perm.trans p (
      Perm.trans (Perm.append (Perm.refl ys) q) (
        subst₂ Perm (append_assoc ys xs base) (append_assoc xs ys base)
          (Perm.append (perm_append_comm ys xs) (Perm.refl base))))

  restored :
      (id : String) (s s' t t' : Shared O)
      → IsManaged (get_network s.task_info)
      → Ran (acl_post_run viper net d id c) (iptables_post_run viper d id c) s s'
      → t.task_info ≡ s'.task_info
      → lookup id t.iptables_hook_container_ip_cache ≡ lookup id s'.iptables_hook_container_ip_cache
      → Perm (rules t.outside) (rules s'.outside)
      → Ran (acl_pre_stop viper net d id c) (iptables_pre_stop viper d id c) t t'
      → Perm (rules t'.outside) (rules s.outside)
  restored id s s' t t' managed up task cache same down =
      let base = rules s.outside in
      let p = acl_post_run-Passed viper net d rules F c id s up.between managed up.first in
      let managed1 : IsManaged (get_network up.between.task_info) =
        subst (λ info. IsManaged (get_network info)) (sym p.task) managed in
      let a = iptables_post_run-Appended viper d rules F c K id up.between s' managed1 up.second in
      let task1 : t.task_info ≡ s.task_info = task ∙ a.task ∙ p.task in
      let mine = acl_rules viper net d rules F s.task_info in
      let other = rules_of viper d rules F up.between.task_info a.ips in
      let there : Perm (rules t.outside) (mine ++ (other ++ base)) =
        below mine other base (rules up.between.outside) (rules t.outside) (Perm.trans same a.added)
          p.now in
      let q =
        acl_pre_stop-Passed viper net d rules F c id t down.between (other ++ base)
          (subst (λ info. IsManaged (get_network info)) (sym task1) managed)
          (subst
            (λ info. Perm (rules t.outside) (acl_rules viper net d rules F info ++ (other ++ base)))
            (sym task1) there)
          down.first in
      iptables_pre_stop-removed viper d rules F c K id up.between s' down.between t' a base managed1
        (q.task ∙ task) (ap (lookup id) q.cache ∙ cache) q.now down.second

  -- Let a manager hold just the acl and the iptables hook, in the order of the program, and let
  -- their post-run succeed for a container on a bridge or user network. Let then neither of them
  -- fail in pre-stop, at a moment when the task, the cache entry of the container and, up to their
  -- order, the installed rules are as post-run left them. Then the pre-stop of the manager, which
  -- drops errors, leaves the firewall with the rules that it had before post-run, each as often,
  -- though it runs the hooks in the order of post-run and not in the reverse. The containerizer is
  -- assumed to look up addresses without a change of rules, and the driver to append and delete as
  -- iptables documents.
  pub run_pre_stop_hooks-run_post_run_hooks :
      (m : Manager O) (id : String) (s s' t t' : Shared O)
      → m.hooks ≡ both viper net d
      → IsManaged (get_network s.task_info)
      → run_post_run_hooks m id c s ≡ (ok tt, s')
      → t.task_info ≡ s'.task_info
      → lookup id t.iptables_hook_container_ip_cache ≡ lookup id s'.iptables_hook_container_ip_cache
      → Perm (rules t.outside) (rules s'.outside)
      → run_hooks pre_stop m c id true t ≡ (ok tt, t')
      → (run_pre_stop_hooks m id c t ≡ (ok tt, t')) × Perm (rules t'.outside) (rules s.outside)
  unfolding run_post_run_hooks run_pre_stop_hooks run_hooks
  run_pre_stop_hooks-run_post_run_hooks m id s s' t t' at managed up task cache same down =
      let q =
        both_stopped id t t'
          (subst (λ hs. run_loop pre_stop c id true hs t ≡ (ok tt, t')) at down) in
      let p =
        both_run id s s' (subst (λ hs. run_loop post_run c id true hs s ≡ (ok tt, s')) at up) in
      (
        subst (λ hs. run_loop pre_stop c id false hs t ≡ (ok tt, t')) (sym at) q.1,
        restored id s s' t t' managed p task cache same q.0,
      )
