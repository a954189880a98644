-- ===== src/Executor/Restore/Firewall.antt =====
-- A launch and the kill behind it (executor/executor.go), with the hooks of the firewall.
use mathlib.Core.List.{Perm}
use mathlib.Core.List.Perm
use mathlib.Core.Path.{subst, subst₂}
use go_mesos_executor.Common.{◌≡◌, refl, sym, ◌∙◌, ap, String, true, false, List}
use go_mesos_executor.Common.Exec.{
  Result, ok, Exec, attempt, drop_error, continue, continue-preserves, drop_error-preserves,
}
use go_mesos_executor.Common.Table.{lookup}
use go_mesos_executor.Container.{Containerizer}
use go_mesos_executor.Hook.{
  Shared, Manager, pre_create, pre_run, pre_stop, post_stop, run_loop, run_hooks,
  run_pre_create_hooks, run_pre_run_hooks, run_post_run_hooks, run_pre_stop_hooks,
  run_post_stop_hooks,
}
use go_mesos_executor.Hook.Acl.{acl_hook}
use go_mesos_executor.Hook.Iptables.{iptables_hook}
use go_mesos_executor.Hook.Firewall.{IsManaged}
use go_mesos_executor.Hook.Restore.{both, run_pre_stop_hooks-run_post_run_hooks}
use go_mesos_executor.Mesos.{TaskInfo, get_network}
use go_mesos_executor.Outside.{Viper, Net, Iptables, IsFirewall, Rule}
use go_mesos_executor.Executor.{
  Agent, Executor, on_shared, outside, stop_task, tear_down, quit_checker,
}
use go_mesos_executor.Executor.Handlers.{report_killed, handle_launch, handle_kill}
use go_mesos_executor.Executor.Launch.Launched.{Launched, handle_launch-Launched}
use go_mesos_executor.Executor.Teardown.{Listens, told, quit-Listens}
use go_mesos_executor.Executor.Restore.{
  IsNeutral, View, view, outside-view, came, start_health_check-view, report_running-view,
  report_killed-view,
}

module _ {O : Type 0} (viper : Viper) (net : Net) (d : Iptables O) (rules : O → List Rule)
    (F : IsFirewall d rules) (c : Containerizer O) (m : Manager O) (agent : Agent O)
    (N : IsNeutral c agent rules) (at : m.hooks ≡ both viper net d) where
  -- The two hooks have nothing to do before the container is made, before it runs and after it has
  -- been stopped.
  idle_pre_create : (s : Shared O) → run_pre_create_hooks m c s ≡ (ok tt, s)
  unfolding run_pre_create_hooks run_hooks run_loop acl_hook iptables_hook
  idle_pre_create s = ap (λ hs. run_loop pre_create c "" true hs s) at

  idle_pre_run : (id : String) (s : Shared O) → run_pre_run_hooks m id c s ≡ (ok tt, s)
  unfolding run_pre_run_hooks run_hooks run_loop acl_hook iptables_hook
  idle_pre_run id s = ap (λ hs. run_loop pre_run c id true hs s) at

  idle_post_stop : (id : String) (s : Shared O) → run_post_stop_hooks m id c s ≡ (ok tt, s)
  unfolding run_post_stop_hooks run_hooks run_loop acl_hook iptables_hook
  idle_post_stop id s = ap (λ hs. run_loop post_stop c id false hs s) at

  -- Where the post-run hooks of a launch start, and what has become of the state at its end.
  record Exposed (task : TaskInfo) (e e' : Executor O) : Type 0 where
    before : Executor O
    after : Executor O
    task_kept : before.task_info ≡ task
    rules_kept : rules before.outside ≡ rules e.outside
    posted : run_post_run_hooks m e'.container_id c before.shared ≡ (ok tt, after.shared)
    viewed : view c m agent rules N e' ≡ view c m agent rules N after

  abbrev seen : Executor O → View
  seen = view c m agent rules N

  quiet_run :
      (n : Exec (Shared O) (Unit {0})) (e s : Executor O)
      → n e.shared ≡ (ok tt, e.shared)
      → on_shared n e ≡ (ok tt, s)
      → s ≡ e
  quiet_run n e s idle eq =
      came c m agent rules N (λ x. x) eq
      ∙ ap (λ (r : Result (Unit {0}) × Shared O). record e { shared = r.1 }) idle

  called :
      {A : Type 0} (n : Exec O A) (e s : Executor O) {a : A}
      → ((o : O) → rules (n o).1 ≡ rules o)
      → outside n e ≡ (ok a, s)
      → seen s ≡ seen e
  called n e s k eq = came c m agent rules N seen eq ∙ outside-view c m agent rules N n e k

  Launched-Exposed :
      (task : TaskInfo) (e e' : Executor O) → Launched c m agent task e e' → Exposed task e e'
  Launched-Exposed task e e' l =
      let e0 = record e { shared = record e.shared { task_info = task } } in
      let created : seen l.made ≡ seen e0 =
        called (c.container_create _) l.at_create l.made (N.create_keeps _) l.created
        ∙ ap seen (
            quiet_run (run_pre_create_hooks m c) e0 l.at_create (idle_pre_create _)
              l.pre_created) in
      let named = record l.made { container_id = l.id } in
      let ran : seen l.at_post ≡ seen named =
        called (c.container_run l.id) l.at_run l.at_post (N.run_keeps l.id) l.ran
        ∙ ap seen (
            quiet_run (run_pre_run_hooks m l.id c) named l.at_run (idle_pre_run l.id _)
              l.prepared) in
      let viewed : seen e' ≡ seen l.at_check =
        ap seen l.final
        ∙ report_running-view c m agent rules N l.at_report l.at_end l.reported
        ∙ start_health_check-view c m agent rules N l.id _ l.at_check l.at_report l.checking in
      let post = on_shared (run_post_run_hooks m l.id c) in
      let id_kept : e'.container_id ≡ l.id =
        ap (λ (v : View). v.1.1.1) viewed
        ∙ came c m agent rules N (λ x. x.container_id) l.posted
        ∙ ap (λ (v : View). v.1.1.1) ran in
      record {
        before = l.at_post;
        after = l.at_check;
        task_kept = ap (λ (v : View). v.0) ran ∙ ap (λ (v : View). v.0) created;
        rules_kept = ap (λ (v : View). v.1.1.0) ran ∙ ap (λ (v : View). v.1.1.0) created;
        posted =
            subst (λ id. run_post_run_hooks m id c l.at_post.shared ≡ (ok tt, l.at_check.shared))
              (sym id_kept)
              (ap (λ (r : Result (Unit {0}) × Executor O). (r.0, r.1.shared)) l.posted);
        viewed = viewed;
      }

  module _ (e : Executor O) (s : Shared O)
      (stopped : run_pre_stop_hooks m e.container_id c e.shared ≡ (ok tt, s)) where
    abbrev AsThen : Executor O → Type 0
    AsThen x = rules x.outside ≡ rules s.outside

    stop_task-AsThen : AsThen (stop_task c m e).1
    unfolding stop_task
    stop_task-AsThen =
        let pre = on_shared (run_pre_stop_hooks m e.container_id c) in
        let stop = outside (c.container_stop e.container_id) in
        let post = on_shared (run_post_stop_hooks m e.container_id c) in
        let did : pre e ≡ (ok tt, record e { shared = s }) =
          ap (λ (r : Result (Unit {0}) × Shared O). (r.0, record e { shared = r.1 })) stopped in
        subst
          (λ (r : Result (Unit {0}) × Executor O).
            AsThen
              (continue (drop_error r) (λ _ e1. continue (attempt stop e1) (λ _. attempt post))).1)
          (sym did)
          (continue-preserves AsThen (attempt stop (record e { shared = s })) _
            (drop_error-preserves AsThen (stop (record e { shared = s })) (N.stop_keeps _ _))
            (λ _ e2 h. drop_error-preserves AsThen (post e2) (
              ap (λ (r : Result (Unit {0}) × Shared O). rules r.1.outside)
                (idle_post_stop e.container_id e2.shared)
              ∙ h)))

  handle_kill-AsThen :
      (e : Executor O) (s : Shared O)
      → Listens e.health_checker
      → run_pre_stop_hooks m e.container_id c e.shared ≡ (ok tt, s)
      → rules (handle_kill c m agent e).1.outside ≡ rules s.outside
  unfolding handle_kill tear_down quit_checker
  handle_kill-AsThen e s l stopped =
      let e1 = record e { is_shutdown = true } in
      let e2 = record e1 { health_checker = told e.health_checker } in
      subst
        (λ (r : Result (Unit {0}) × Executor O).
          AsThen e2 s stopped
            (continue (continue r (λ _. stop_task c m)) (λ _. report_killed c m agent)).1)
        (sym (quit-Listens c m e.health_checker e1 refl l))
        (continue-preserves (AsThen e2 s stopped) (stop_task c m e2) _
          (stop_task-AsThen e2 s stopped)
          (λ _ e3 h. ap (λ (v : View). v.1.1.0) (report_killed-view c m agent rules N e3) ∙ h))

  -- Let the executor have just the acl and the iptables hook, and let a launch of a task on a bridge
  -- or user network return no error. Kill the task then, with no other step in between, while the
  -- health checker, if there is one, listens, and let neither hook fail in its pre-stop. Then
  -- whatever else of the kill fails, the firewall has the rules that it had before the launch, each
  -- as often. The engine and the agent are assumed to change no rule, and the driver to append and
  -- delete as iptables documents.
  pub handle_kill-handle_launch :
      (task : TaskInfo) (e e' : Executor O) (s : Shared O)
      → IsManaged (get_network task)
      → handle_launch c m agent task e ≡ (ok tt, e')
      → Listens e'.health_checker
      → run_hooks pre_stop m c e'.container_id true e'.shared ≡ (ok tt, s)
      → Perm (rules (handle_kill c m agent e').1.outside) (rules e.outside)
  handle_kill-handle_launch task e e' s managed did l down =
      let x = Launched-Exposed task e e' (handle_launch-Launched c m agent task e e' did) in
      let back =
        run_pre_stop_hooks-run_post_run_hooks viper net d rules F c N.ips_keeps m e'.container_id
          x.before.shared x.after.shared e'.shared s at
          (subst (λ info. IsManaged (get_network info)) (sym x.task_kept) managed) x.posted
          (ap (λ (v : View). v.0) x.viewed)
          (ap (λ (v : View). lookup e'.container_id v.1.0) x.viewed)
          (subst (λ l. Perm l (rules x.after.outside)) (sym (ap (λ (v : View). v.1.1.0) x.viewed))
            (Perm.refl _))
          down in
      subst₂ Perm (sym (handle_kill-AsThen e' s l back.0)) x.rules_kept back.1
