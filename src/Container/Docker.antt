-- ===== src/Container/Docker.antt =====
-- container/docker.go: the containerizer of the Docker engine. The client library is a parameter.
pub mod Create
pub mod Addresses
pub mod Poll
pub mod Engine
pub mod Client
use Prim.Native.Nat.{ℕ}
use go_mesos_executor.Common.{
  String, ◌<>◌, Bool, true, false, Option, none, some, List, [], ◌∷◌, ◌++◌, str_eq, map,
  if◌then◌else◌,
}
use go_mesos_executor.Common.Exec.{
  GoError, errorf, panic, Exec, Result, ok, err, fault, pure, raise, settle, ◌>>=◌, ◌>>◌,
}
use go_mesos_executor.Common.Int.{ℤ, to_int64}
use go_mesos_executor.Common.Table.{Table, insert}
use go_mesos_executor.Common.Text.{itoa, split}
use go_mesos_executor.Container.{Info, Ip}
use go_mesos_executor.Mesos.{
  TaskInfo, ContainerInfo, DockerInfo, NetworkInfo, Network, host, bridge, no_network, user,
  other_network, PortMapping, get_protocol, Volume, VolumeMode, rw, ro, other_mode, Variable,
  CommandInfo, get_network, get_port_mappings, or_default,
}
use go_mesos_executor.Namespace.{
  Netns, Thread, on_thread, deferring, enter_network_namespace, exit_network_namespace,
}
use go_mesos_executor.Outside.{Viper}

-- `docker.CreateContainerOptions`, with its two parts. A nil slice is an empty list. The bindings of
-- a container port are the one host port of the slice.
pub record CreateOptions : Type 0 where
  pub cpu_shares : ℤ
  pub env : List String
  pub image : String
  pub memory : ℤ
  pub cmd : List String
  pub binds : List String
  pub network_mode : String
  pub port_bindings : Table String
  pub privileged : Bool
  pub name : String

pub record DockerClient (O : Type 0) : Type 0 where
  pub create_container : CreateOptions → Exec O String
  pub start_container : String → Exec O (Unit {0})
  pub stop_container : String → ℕ → Exec O (Unit {0})
  pub remove_container : String → Exec O (Unit {0})
  pub inspect_pid : String → Exec O ℕ
  pub wait_container : String → Exec O ℤ

abbrev user_network : List NetworkInfo → Result String
user_network [] = err (errorf "Could not find a user network to use")
user_network (n ∷ ns) = elim (n.name) [
  | none ↦ fault (panic "nil pointer dereference")
  | some name ↦ ok name
]

abbrev network_infos_of : Option ContainerInfo → List NetworkInfo
network_infos_of none = []
network_infos_of (some c) = c.network_infos

-- The first `switch` of `ContainerCreate`.
unfoldable pub network_mode_of : TaskInfo → Result String
network_mode_of task = elim (get_network task) [
  | host ↦ ok "host"
  | bridge ↦ ok "bridge"
  | no_network ↦ ok "none"
  | user ↦ user_network (network_infos_of task.container)
  | other_network _ ↦ err (errorf "Invalid network mode")
]

abbrev pub port_key : PortMapping → String
port_key p = (itoa p.container_port <> "/") <> get_protocol p

-- A later mapping of the same port and protocol replaces an earlier one.
unfoldable pub bind_ports : Table String → List PortMapping → Table String
bind_ports bound [] = bound
bind_ports bound (p ∷ ps) = bind_ports (insert (port_key p) (itoa p.host_port) bound) ps

abbrev environment_of : Option CommandInfo → List Variable
environment_of none = []
environment_of (some c) = or_default [] c.environment

abbrev pub stringify : Variable → String
stringify v = (v.name <> "=") <> v.value

abbrev volumes_of : Option ContainerInfo → List Volume
volumes_of none = []
volumes_of (some c) = c.volumes

abbrev mode_text : VolumeMode → Result String
mode_text rw = ok "rw"
mode_text ro = ok "ro"
mode_text (other_mode text) = err (errorf ("Invalid volume mode: " <> text))

abbrev bound : Volume → Result String → Result (List String) → Result (List String)
bound v (ok mode) (ok rest) =
    ok (((or_default "" v.host_path <> ":") <> (v.container_path <> ":") <> mode) ∷ rest)
bound v (ok mode) (err e) = err e
bound v (ok mode) (fault x) = fault x
bound v (err e) _ = err e
bound v (fault x) _ = fault x

-- The first volume with an invalid mode is an error.
unfoldable pub binds_of : List Volume → Result (List String)
binds_of [] = ok []
binds_of (v ∷ vs) = let rest = binds_of vs in bound v (mode_text (or_default rw v.mode)) rest

abbrev command_text : Option CommandInfo → String
command_text none = ""
command_text (some c) = or_default "" c.value

abbrev docker_info : Option ContainerInfo → Option DockerInfo
docker_info none = none
docker_info (some c) = c.docker

abbrev image_of : Option DockerInfo → String
image_of none = ""
image_of (some d) = d.image

abbrev privileged_of : Option DockerInfo → Bool
privileged_of none = false
privileged_of (some d) = or_default false d.privileged

abbrev options_with : Info → Result String → Result (List String) → Result CreateOptions
options_with info (ok mode) (ok binds) = ok (record {
  cpu_shares = to_int64 info.cpu_shares_limit;
  env = map stringify (environment_of info.task_info.command);
  image = image_of (docker_info info.task_info.container);
  memory = to_int64 info.memory_limit;
  cmd =
      if str_eq (command_text info.task_info.command) ""
      then []
      else split b' ' (command_text info.task_info.command);
  binds = binds;
  network_mode = mode;
  port_bindings = bind_ports [] (get_port_mappings info.task_info);
  privileged = privileged_of (docker_info info.task_info.container);
  name = info.name;
})
options_with info (ok mode) (err e) = err e
options_with info (ok mode) (fault x) = fault x
options_with info (err e) _ = err e
options_with info (fault x) _ = fault x

-- What `ContainerCreate` builds before it calls the engine.
unfoldable pub create_options : Info → Result CreateOptions
unfolding network_mode_of binds_of bind_ports
create_options info =
    options_with info (network_mode_of info.task_info)
      (binds_of (volumes_of info.task_info.container))

module _ {O : Type 0} (client : DockerClient O) where
  unfoldable pub container_create : Info → Exec O String
  unfolding create_options
  container_create info o = elim (create_options info) [
    | ok options ↦ client.create_container options o
    | err e ↦ (err e, o)
    | fault x ↦ (fault x, o)
  ]

  unfoldable pub container_run : String → Exec O (Unit {0})
  container_run id = client.start_container id

  unfoldable pub container_stop : String → Exec O (Unit {0})
  container_stop id = client.stop_container id 0

  unfoldable pub container_remove : String → Exec O (Unit {0})
  container_remove id = client.remove_container id

  unfoldable pub container_get_pid : String → Exec O ℕ
  container_get_pid id = client.inspect_pid id

  unfoldable pub container_wait : String → Exec O ℤ
  container_wait id = client.wait_container id
