-- ===== src/Executor/Restore.antt =====
-- What the hooks of the firewall need to find again, through a launch (executor/executor.go).
pub mod Firewall
use mathlib.Core.List.{Perm}
use mathlib.Core.List.Perm
use mathlib.Core.Path.{subst, subst₂}
use go_mesos_executor.Common.{
  ◌≡◌, refl, sym, ◌∙◌, ap, String, true, false, Option, none, some, List,
}
use go_mesos_executor.Common.Exec.{
  Result, ok, Exec, attempt, drop_error, continue, continue-keeps, continue-preserves,
  drop_error-preserves,
}
use go_mesos_executor.Common.Table.{Table, lookup}
use go_mesos_executor.Container.{Containerizer, Info, Ip}
use go_mesos_executor.Hook.{
  Shared, Manager, pre_create, pre_run, pre_stop, post_stop, run_loop, run_hooks,
  run_pre_create_hooks, run_pre_run_hooks, run_post_run_hooks, run_pre_stop_hooks,
  run_post_stop_hooks,
}
use go_mesos_executor.Hook.Acl.{acl_hook}
use go_mesos_executor.Hook.Iptables.{iptables_hook}
use go_mesos_executor.Hook.Firewall.{IsManaged}
use go_mesos_executor.Hook.Restore.{both, run_pre_stop_hooks-run_post_run_hooks}
use go_mesos_executor.Mesos.{TaskInfo, HealthCheck, Call, TaskStatus, get_network}
use go_mesos_executor.Outside.{Viper, Net, Iptables, IsFirewall, Rule}
use go_mesos_executor.Executor.{
  Agent, Executor, on_shared, outside, new_status, update_status, stop_task, tear_down,
  quit_checker,
}
use go_mesos_executor.Executor.Handlers.{
  start_health_check, report_running, report_killed, handle_launch, handle_kill,
}
use go_mesos_executor.Executor.Launch.Launched.{Launched, handle_launch-Launched, or_throw-ok}
use go_mesos_executor.Executor.Teardown.{Listens, told, quit-Listens}

-- The engine and the agent leave the firewall alone.
pub record IsNeutral {O : Type 0} (c : Containerizer O) (agent : Agent O) (rules : O → List Rule)
    : Type 0 where
  pub create_keeps : (info : Info) (o : O) → rules (c.container_create info o).1 ≡ rules o
  pub run_keeps : (id : String) (o : O) → rules (c.container_run id o).1 ≡ rules o
  pub stop_keeps : (id : String) (o : O) → rules (c.container_stop id o).1 ≡ rules o
  pub pid_keeps : (id : String) (o : O) → rules (c.container_get_pid id o).1 ≡ rules o
  pub ips_keeps :
      (id i : String) (o : O) → rules (c.container_get_ips_by_interface id i o).1 ≡ rules o
  pub call_keeps : (call : Call) (o : O) → rules (agent.do_call call o).1 ≡ rules o
  pub uuid_keeps : (o : O) → rules (agent.new_uuid o).1 ≡ rules o

-- What the hooks of the firewall need to find again.
abbrev pub View : Type 0
View = TaskInfo × (Table (List Ip) × (List Rule × String))

module _ {O : Type 0} (c : Containerizer O) (m : Manager O) (agent : Agent O)
    (rules : O → List Rule) (N : IsNeutral c agent rules) where
  abbrev pub view : Executor O → View
  view e = (e.task_info, (e.iptables_hook_container_ip_cache, (rules e.outside, e.container_id)))

  pub outside-view :
      {A : Type 0} (n : Exec O A) (e : Executor O)
      → ((o : O) → rules (n o).1 ≡ rules o)
      → view (outside n e).1 ≡ view e
  outside-view n e k =
      ap
        (λ (l : List Rule).
          (e.task_info, (e.iptables_hook_container_ip_cache, (l, e.container_id))))
        (k e.outside)

  pub came :
      {A V : Type 0} {x : Result A × Executor O} {a : A} {s : Executor O} (f : Executor O → V)
      → x ≡ (ok a, s)
      → f s ≡ f x.1
  came {A} f eq = ap (λ (r : Result A × Executor O). f r.1) (sym eq)

  pub start_health_check-view :
      (id : String) (o : Option HealthCheck) (e e' : Executor O)
      → start_health_check c m agent id o e ≡ (ok tt, e')
      → view e' ≡ view e
  unfolding start_health_check
  start_health_check-view id none e e' = λ p. came view p
  start_health_check-view id (some k) e e' =
      or_throw-ok c m agent (view e' ≡ view e) (outside (c.container_get_pid id)) _ _ e
        (λ pid s got did.
          came view did ∙ came view got ∙ outside-view (c.container_get_pid id) e (N.pid_keeps id))

  update_status-view :
      (status : TaskStatus) (e : Executor O) → view (update_status agent status e).1 ≡ view e
  unfolding update_status
  update_status-view status e =
      continue-keeps view (outside (agent.do_call _) e) _
        (outside-view (agent.do_call _) e (N.call_keeps _)) (λ _ s. refl)

  new_status-view : (e : Executor O) → view (new_status agent e).1 ≡ view e
  unfolding new_status
  new_status-view e =
      ap
        (λ (l : List Rule).
          (e.task_info, (e.iptables_hook_container_ip_cache, (l, e.container_id))))
        (N.uuid_keeps e.outside)

  pub report_running-view :
      (e e' : Executor O) → report_running c m agent e ≡ (ok tt, e') → view e' ≡ view e
  unfolding report_running new_status
  report_running-view e e' =
      or_throw-ok c m agent (view e' ≡ view e) (update_status agent _) _ _ _
        (λ _ s got did. came view did ∙ came view got ∙ update_status-view _ _ ∙ new_status-view e)

  pub report_killed-view : (e : Executor O) → view (report_killed c m agent e).1 ≡ view e
  unfolding report_killed
  report_killed-view e =
      continue-keeps view (new_status agent e) _ (new_status-view e)
        (λ status s. update_status-view _ s)
