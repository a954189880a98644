-- ===== src/Mesos.antt =====
-- The messages of the Mesos v1 API that the executor reads and writes (vendored as
-- github.com/mesos/mesos-go/api/v1/lib). A pointer that may be nil is an `Option`. Only the fields
-- that the program uses are here. The functions are the nil-safe getters, with the defaults that
-- the protocol gives.
use go_mesos_executor.Common.{ℕ, ◌*◌, ◌/◌, ◌+◌, ◌^◌, String, Bool, Option, none, some, List, []}

-- A float64 that is finite and not negative: mantissa * 2 ^ up / 2 ^ down.
pub record Float64 : Type 0 where
  pub mantissa : ℕ
  pub up : ℕ
  pub down : ℕ

abbrev pub zero_float : Float64
zero_float = record { mantissa = 0; up = 0; down = 0 }

-- A product by 2 ^ k is exact.
abbrev pub scale : Float64 → ℕ → Float64
scale f k = record f { up = f.up + k }

-- The conversion to an unsigned integer, of a value in its range.
abbrev pub truncate : Float64 → ℕ
truncate f = f.mantissa * 2 ^ f.up / 2 ^ f.down

pub data Network : Type 0 where
  host bridge no_network user : Network
  other_network : ℕ → Network

pub record PortMapping : Type 0 where
  pub host_port : ℕ
  pub container_port : ℕ
  pub protocol : Option String

pub record DockerInfo : Type 0 where
  pub image : String
  pub network : Option Network
  pub port_mappings : List PortMapping
  pub privileged : Option Bool

pub record NetworkInfo : Type 0 where
  pub name : Option String

pub data VolumeMode : Type 0 where
  rw ro : VolumeMode
  other_mode : String → VolumeMode

pub record Volume : Type 0 where
  pub mode : Option VolumeMode
  pub container_path : String
  pub host_path : Option String

pub record ContainerInfo : Type 0 where
  pub docker : Option DockerInfo
  pub network_infos : List NetworkInfo
  pub volumes : List Volume

pub record Variable : Type 0 where
  pub name : String
  pub value : String

pub record CommandInfo : Type 0 where
  pub environment : Option (List Variable)
  pub shell : Option Bool
  pub value : Option String

pub record Resource : Type 0 where
  pub name : String
  pub scalar : Option Float64

pub record Label : Type 0 where
  pub key : String
  pub value : Option String

pub data CheckType : Type 0 where
  unknown_check command_check http_check tcp_check : CheckType

pub record HttpCheckInfo : Type 0 where
  pub port : ℕ
  pub path : Option String

pub record HealthCheck : Type 0 where
  pub check_type : Option CheckType
  pub interval_seconds : Option Float64
  pub consecutive_failures : Option ℕ
  pub command : Option CommandInfo
  pub http : Option HttpCheckInfo
  pub tcp_port : Option ℕ

pub record TaskInfo : Type 0 where
  pub task_id : String
  pub resources : List Resource
  pub command : Option CommandInfo
  pub container : Option ContainerInfo
  pub health_check : Option HealthCheck
  pub labels : Option (List Label)

pub record FrameworkInfo : Type 0 where
  pub name : String

pub record ExecutorInfo : Type 0 where
  pub executor_id : String

pub record AgentInfo : Type 0 where
  pub hostname : String

pub data TaskState : Type 0 where
  task_running task_killed task_failed task_finished : TaskState

pub record TaskStatus : Type 0 where
  pub executor_id : String
  pub task_id : String
  pub uuid : String
  pub state : Option TaskState
  pub message : Option String
  pub healthy : Option Bool

-- The calls to the agent. Both name the executor and the framework.
pub data Call : Type 0 where
  subscribe : List TaskStatus → String → String → Call
  update : TaskStatus → String → String → Call

pub data Event : Type 0 where
  subscribed : AgentInfo → ExecutorInfo → FrameworkInfo → Event
  launch : TaskInfo → Event
  kill : Event
  acknowledged : String → Event
  message : String → Event
  shutdown : Event
  agent_error : String → Event
  other_event : Event

abbrev pub or_default {ℓ} : {A : Type ℓ} → A → Option A → A
or_default d none = d
or_default d (some a) = a

abbrev docker_of : Option ContainerInfo → Option DockerInfo
docker_of none = none
docker_of (some c) = c.docker

abbrev network_of : Option DockerInfo → Network
network_of none = host
network_of (some d) = or_default host d.network

abbrev ports_of : Option DockerInfo → List PortMapping
ports_of none = []
ports_of (some d) = d.port_mappings

-- task.GetContainer().GetDocker().GetNetwork()
abbrev pub get_network : TaskInfo → Network
get_network t = network_of (docker_of t.container)

-- task.GetContainer().GetDocker().GetPortMappings()
abbrev pub get_port_mappings : TaskInfo → List PortMapping
get_port_mappings t = ports_of (docker_of t.container)

-- task.GetLabels().GetLabels()
abbrev pub get_labels : TaskInfo → List Label
get_labels t = or_default [] t.labels

abbrev pub get_protocol : PortMapping → String
get_protocol p = or_default "" p.protocol

abbrev pub get_value : Resource → Float64
get_value r = or_default zero_float r.scalar
