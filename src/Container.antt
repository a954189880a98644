-- ===== src/Container.antt =====
-- container/containerizer.go: what the executor and the hooks ask of a container engine. `O` is the
-- state of all that is outside of the program: the engine, the kernel, the disk, the agent.
pub mod Fake
pub mod Docker
use go_mesos_executor.Common.{ℕ, String, List}
use go_mesos_executor.Common.Exec.{Exec}
use go_mesos_executor.Common.Int.{ℤ}
use go_mesos_executor.Mesos.{TaskInfo}

pub record Info : Type 0 where
  pub cpu_shares_limit : ℕ
  pub memory_limit : ℕ
  pub name : String
  pub task_info : TaskInfo

-- An IP address, as `net.IP.String` prints it.
abbrev pub Ip : Type 0
Ip = String

-- The result that `container_exec` sends is what the caller reads from its channel.
pub record Containerizer (O : Type 0) : Type 0 where
  pub container_create : Info → Exec O String
  pub container_get_pid : String → Exec O ℕ
  pub container_remove : String → Exec O (Unit {0})
  pub container_run : String → Exec O (Unit {0})
  pub container_stop : String → Exec O (Unit {0})
  pub container_wait : String → Exec O ℤ
  pub container_exec : String → List String → Exec O (Unit {0})
  pub container_get_ips_by_interface : String → String → Exec O (List Ip)
