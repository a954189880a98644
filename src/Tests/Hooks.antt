-- ===== src/Tests/Hooks.antt =====
-- Registrations and runs of hooks in the small world.
use mathlib.Core.List.{Pairwise, Perm, reverse}
use go_mesos_executor.Common.{
  arith, ◌≡◌, refl, true, false, none, some, List, [], ◌∷◌, ◌++◌, String-discrete, Bool-cases,
}
use go_mesos_executor.Common.Exec.{errorf, raise}
use go_mesos_executor.Common.Int.{pos}
use go_mesos_executor.Hook.{
  Hook, Shared, Manager, pre_create, run_hooks, run_loop, run_selected, select, register_hooks,
}
use go_mesos_executor.Hook.Acl.{acl_hook}
use go_mesos_executor.Hook.Netns.{netns_hook}
use go_mesos_executor.Hook.Network.{network_hook, network_pre_create}
use go_mesos_executor.Hook.Order.{
  LowerPriority, enabled_of, register_hooks-Sorted, register_hooks_of_eq,
}
use go_mesos_executor.Hook.Run.{attempt_all, FailsAt, run_hooks-attempt_all, run_hooks-FailsAt}
use go_mesos_executor.Tests.World.{
  World, engine, no_hooks, shared_of, web_task, test_viper, test_net, test_iptables, test_os,
}

abbrev acl : Hook World
acl = acl_hook test_viper test_net test_iptables

abbrev netns : Hook World
netns = netns_hook test_viper test_os

abbrev both : List (Hook World)
both = acl ∷ netns ∷ []

register_hooks-Sorted_example :
    Pairwise LowerPriority (register_hooks both no_hooks).hooks
    × Perm (register_hooks both no_hooks).hooks ([] ++ enabled_of ("acl" ∷ "netns" ∷ []) both)
register_hooks-Sorted_example = register_hooks-Sorted both no_hooks

register_hooks_of_eq_example :
    (register_hooks both no_hooks).hooks ≡ reverse ([] ++ enabled_of ("acl" ∷ "netns" ∷ []) both)
unfolding acl_hook netns_hook String-discrete Bool-cases
register_hooks_of_eq_example =
    register_hooks_of_eq (pos 0) both no_hooks (refl, (refl, tt)) (omega arith)

-- A hook that fails, behind one that does not.
abbrev refusing : Hook World
refusing = record {
  name = "refusing";
  priority = pos 0;
  run_pre_create = some (λ c. raise (errorf "no"));
  run_pre_run = none;
  run_post_run = none;
  run_pre_stop = none;
  run_post_stop = none;
}

abbrev manager : Manager World
manager = record { enabled_hooks = []; hooks = network_hook ∷ refusing ∷ network_hook ∷ [] }

abbrev before : Shared World
before = shared_of web_task

abbrev after_run : Shared World
after_run = (run_hooks pre_create manager engine "" true before).1

run_hooks-attempt_all_example :
    run_hooks pre_create manager engine "" false before
    ≡ attempt_all pre_create engine "" manager.hooks before
run_hooks-attempt_all_example = run_hooks-attempt_all pre_create engine "" manager before tt

run_hooks-FailsAt_example :
    FailsAt pre_create engine "" manager.hooks before after_run (errorf "no")
unfolding run_hooks run_loop run_selected select network_hook network_pre_create
run_hooks-FailsAt_example =
    run_hooks-FailsAt pre_create engine "" manager before after_run (errorf "no") tt refl
