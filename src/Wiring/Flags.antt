-- ===== src/Wiring/Flags.antt =====
-- main.go: the package variables, the flags that `init` declares for cobra, and the configuration
-- that `readConfig` reads through viper.
use go_mesos_executor.Common.{ℕ, String, Bool, true, false, List, []}
use go_mesos_executor.Common.Exec.{
  Exec, fatal, halt, pure, gets, modify, within, settle, ◌>>=◌, ◌>>◌,
}

-- The package variables of main.go.
pub record Globals : Type 0 where
  pub agent_endpoint : String
  pub cgroups_enable_cfs : Bool
  pub container_name : String
  pub docker : String
  pub docker_socket : String
  pub executor_id : String
  pub external_log_file : String
  pub framework_id : String
  pub help : Bool
  pub initialize_driver_logging : Bool
  pub launcher_dir : String
  pub log_buf_secs : ℕ
  pub log_dir : String
  pub logging_level : String
  pub mapped_directory : String
  pub quiet : Bool
  pub sandbox_directory : String
  pub stop_timeout : String
  pub task_environment : List String

abbrev pub zero_globals : Globals
zero_globals = record {
  agent_endpoint = "";
  cgroups_enable_cfs = false;
  container_name = "";
  docker = "";
  docker_socket = "";
  executor_id = "";
  external_log_file = "";
  framework_id = "";
  help = false;
  initialize_driver_logging = false;
  launcher_dir = "";
  log_buf_secs = 0;
  log_dir = "";
  logging_level = "";
  mapped_directory = "";
  quiet = false;
  sandbox_directory = "";
  stop_timeout = "";
  task_environment = [];
}

-- The default of a flag. A duration is in nanoseconds.
pub data Default : Type 0 where
  bool_default : Bool → Default
  string_default : String → Default
  uint_default : ℕ → Default
  strings_default : List String → Default
  duration_default : ℕ → Default

-- cobra and viper, as main.go calls them: the declaration of a persistent flag, the parse of the
-- arguments, which sets the variables of flags, and viper's setup and look-ups. The errors of
-- `BindPFlag` and `BindEnv` are dropped.
pub record Cli (O : Type 0) : Type 0 where
  pub declare_flag : String → Default → O → O
  pub bind_pflag : String → O → O
  pub set_default : String → Bool → O → O
  pub parse : Globals → Exec O Globals
  pub set_env_prefix : String → O → O
  pub set_config_name : String → O → O
  pub add_config_path : String → O → O
  pub bind_env : String → O → O
  pub get_string : String → O → String
  pub get_string_slice : String → O → List String
  pub read_in_config : Exec O (Unit {0})

pub record Process (O : Type 0) : Type 0 where
  pub globals : Globals
  pub outside : O

module _ {O : Type 0} where
  abbrev pub call : (O → O) → Exec (Process O) (Unit {0})
  call f = modify (λ s. record s { outside = f s.outside })

  abbrev pub set_globals : (Globals → Globals) → Exec (Process O) (Unit {0})
  set_globals f = modify (λ s. record s { globals = f s.globals })

  abbrev pub on_outside : {A : Type 0} → Exec O A → Exec (Process O) A
  on_outside = within (λ s. s.outside) (λ s o. record s { outside = o })

  -- `if err != nil { logger.GetInstance().Fatal(text, …) }`
  abbrev pub or_fatal : {A : Type 0} → Exec (Process O) A → String → Exec (Process O) A
  or_fatal n text s = settle (n s) (λ x. halt (fatal text)) pure

module _ {O : Type 0} (cli : Cli O) where
  -- The declaration of a flag that sets a variable, which gets the default.
  abbrev flag_of : (Globals → Globals) → String → Default → Exec (Process O) (Unit {0})
  flag_of f name d = do set_globals f; call (cli.declare_flag name d)

  -- A flag that viper reads.
  abbrev setting : String → Default → Exec (Process O) (Unit {0})
  setting name d = do call (cli.declare_flag name d); call (cli.bind_pflag name)

  unfoldable pub init : Exec (Process O) (Unit {0})
  init = do
    flag_of (λ g. record g { cgroups_enable_cfs = false }) "cgroups_enable_cfs" (bool_default false)
    flag_of (λ g. record g { container_name = "" }) "container" (string_default "")
    flag_of (λ g. record g { docker = "" }) "docker" (string_default "")
    flag_of (λ g. record g { docker_socket = "" }) "docker_socket" (string_default "")
    flag_of (λ g. record g { external_log_file = "" }) "external_log_file" (string_default "")
    flag_of (λ g. record g { help = false }) "help" (bool_default false)
    flag_of (λ g. record g { initialize_driver_logging = true }) "initialize_driver_logging"
        (bool_default true)
    flag_of (λ g. record g { launcher_dir = "" }) "launcher_dir" (string_default "")
    flag_of (λ g. record g { log_buf_secs = 0 }) "logbufsecs" (uint_default 0)
    flag_of (λ g. record g { log_dir = "" }) "log_dir" (string_default "")
    flag_of (λ g. record g { logging_level = "" }) "logging_level" (string_default "")
    flag_of (λ g. record g { mapped_directory = "" }) "mapped_directory" (string_default "")
    flag_of (λ g. record g { quiet = false }) "quiet" (bool_default false)
    flag_of (λ g. record g { sandbox_directory = "" }) "sandbox_directory" (string_default "")
    flag_of (λ g. record g { stop_timeout = "" }) "stop_timeout" (string_default "")
    flag_of (λ g. record g { task_environment = [] }) "task_environment" (strings_default [])
    setting "debug" (bool_default true)
    setting "hooks" (strings_default [])
    setting "proc_path" (string_default "/proc")
    setting "registering_retry" (duration_default 100000000)
    setting "docker_exec_poll_interval" (duration_default 1000000000)
    call (cli.set_default "iptables.ip_forwarding" true)
    call (cli.set_default "iptables.ip_masquerading" true)

  -- The part of `readConfig` that reads a variable of the environment.
  abbrev from_env : String → (String → Globals → Globals) → Exec (Process O) (Unit {0})
  from_env key f = do
    call (cli.bind_env key)
    value ← gets (λ s. cli.get_string key s.outside)
    set_globals (f value)

  -- The three variables are read before the file is.
  unfoldable pub read_config : Exec (Process O) (Unit {0})
  read_config = do
    call (cli.set_env_prefix "mesos")
    call (cli.set_config_name "config")
    call (cli.add_config_path "/etc/mesos-executor")
    call (cli.add_config_path ".")
    from_env "agent_endpoint" (λ value g. record g { agent_endpoint = value })
    from_env "executor_id" (λ value g. record g { executor_id = value })
    from_env "framework_id" (λ value g. record g { framework_id = value })
    or_fatal (on_outside cli.read_in_config) "An error occured while reading the configuration file"
