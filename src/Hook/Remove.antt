-- ===== src/Hook/Remove.antt =====
-- hook/remove_container.go: the stopped container is removed on post-stop.
use go_mesos_executor.Common.{none, some}
use go_mesos_executor.Common.Int.{pos}
use go_mesos_executor.Hook.{Hook}
use go_mesos_executor.Outside.{on_outside}

unfoldable pub remove_container_hook : {O : Type 0} → Hook O
remove_container_hook = record {
  name = "removeContainer";
  priority = pos 0;
  run_pre_create = none;
  run_pre_run = none;
  run_post_run = none;
  run_pre_stop = none;
  run_post_stop = some (λ id c. on_outside (c.container_remove id));
}
