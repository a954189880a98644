-- ===== src/Container/Fake.antt =====
-- types/types.go: the containerizer that always succeeds. Its calls leave the outside alone.
use go_mesos_executor.Common.{[], ◌∷◌}
use go_mesos_executor.Common.Exec.{pure}
use go_mesos_executor.Common.Int.{pos}
use go_mesos_executor.Container.{Containerizer}

abbrev pub fake_containerizer : {O : Type 0} → Containerizer O
fake_containerizer = record {
  container_create = λ info. pure "fakeContainerID";
  container_get_pid = λ id. pure 666;
  container_remove = λ id. pure tt;
  container_run = λ id. pure tt;
  container_stop = λ id. pure tt;
  container_wait = λ id. pure (pos 0);
  container_exec = λ id cmd. pure tt;
  container_get_ips_by_interface = λ id interface_name. pure ("127.0.0.1" ∷ []);
}
