-- ===== src/Hook/Network.antt =====
-- hook/network.go: the container joins the user network that is named like the framework.
use go_mesos_executor.Common.{Option, none, some, [], ◌∷◌}
use go_mesos_executor.Common.Exec.{Exec, panic, halt, modify}
use go_mesos_executor.Common.Int.{pos}
use go_mesos_executor.Hook.{Hook, Shared, Action}
use go_mesos_executor.Mesos.{ContainerInfo, DockerInfo, user}

module _ {O : Type 0} where
  -- `taskInfo.Container.Docker.Network = USER`, then `taskInfo.Container.NetworkInfos = …`; a nil
  -- pointer on the way is a panic.
  unfoldable pub set_network : Option DockerInfo → ContainerInfo → Exec (Shared O) (Unit {0})
  set_network none container = halt (panic "nil pointer dereference")
  set_network (some docker) container = modify (λ s. record s {
    task_info = record s.task_info {
      container = some (record container {
        docker = some (record docker { network = some user });
        network_infos = record { name = some s.framework_info.name } ∷ [];
      });
    };
  })

  unfoldable pub set_user_network : Option ContainerInfo → Exec (Shared O) (Unit {0})
  unfolding set_network
  set_user_network none = halt (panic "nil pointer dereference")
  set_user_network (some container) = set_network container.docker container

  unfoldable pub network_pre_create : Action O
  unfolding set_user_network
  network_pre_create c s = set_user_network s.task_info.container s

  unfoldable pub network_hook : Hook O
  unfolding network_pre_create
  network_hook = record {
    name = "network";
    priority = pos 0;
    run_pre_create = some network_pre_create;
    run_pre_run = none;
    run_post_run = none;
    run_pre_stop = none;
    run_post_stop = none;
  }
