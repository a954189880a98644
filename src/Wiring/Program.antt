-- ===== src/Wiring/Program.antt =====
-- main.go: the program from `main` to the call of `Execute` and behind it.
pub mod Whole
use go_mesos_executor.Common.{String, Option, none, some, ◌≡◌}
use go_mesos_executor.Common.Exec.{
  GoError, Result, ok, err, fault, Exec, fatal, pure, gets, modify, settle, ◌>>=◌, ◌>>◌,
}
use go_mesos_executor.Container.{Containerizer}
use go_mesos_executor.Executor.{Agent, Config, Executor, api_url, new_executor}
use go_mesos_executor.Executor.Loop.{Phase, subscribing, handling, finished}
use go_mesos_executor.Hook.{Manager}
use go_mesos_executor.Outside.{Viper, Net, Os, Iptables}
use go_mesos_executor.Wiring.{main_manager}
use go_mesos_executor.Wiring.Flags.{
  Globals, zero_globals, Cli, Process, set_globals, on_outside, or_fatal, init, read_config,
}

-- The program where it calls `Execute`.
pub record Program (O : Type 0) : Type 0 where
  pub containerizer : Containerizer O
  pub manager : Manager O
  pub agent : Agent O
  pub executor : Executor O

abbrev pub config_of : Globals → Config
config_of g = record {
  agent_endpoint = g.agent_endpoint;
  container_name = g.container_name;
  executor_id = g.executor_id;
  framework_id = g.framework_id;
}

module _ {O : Type 0} (cli : Cli O) where
  -- The parse of the arguments by the root command, whose error ends `main`.
  unfoldable pub parse_arguments : Exec (Process O) (Unit {0})
  parse_arguments = do
    before ← gets (λ s. s.globals)
    parsed ←
        or_fatal (on_outside (cli.parse before)) "An error occured while running the root command"
    set_globals (λ g. parsed)

-- What the program is built on: cobra and viper, package net's parsers, the disk, iptables, the
-- containerizer for a socket (`NewDockerContainerizer`), the HTTP client for a URL.
module _ {O : Type 0} (cli : Cli O) (viper : Viper) (net : Net) (os : Os O) (driver : Iptables O)
    (new_containerizer : String → Exec O (Containerizer O)) (new_agent : String → Agent O) where
  -- `Run` of the root command, up to `Execute`.
  unfoldable pub run_command : Exec (Process O) (Program O)
  unfolding main_manager new_executor api_url
  run_command = do
    socket ← gets (λ s. s.globals.docker_socket)
    c ←
        or_fatal (on_outside (new_containerizer socket))
          "An error occured while initializing the containerizer"
    hooks ← gets (λ s. cli.get_string_slice "hooks" s.outside)
    config ← gets (λ s. config_of s.globals)
    o ← gets (λ s. s.outside)
    pure (record {
      containerizer = c;
      manager = main_manager viper net os driver hooks;
      agent = new_agent (api_url config);
      executor = new_executor config o;
    })

  unfoldable pub main_program : Exec (Process O) (Program O)
  unfolding init parse_arguments read_config run_command
  main_program = do init cli; parse_arguments cli; read_config cli; run_command

-- What becomes of the process once `Execute` is where it is, nothing if it is still in its loop.
unfoldable pub exit_of_program : Phase → Option (Result (Unit {0}))
exit_of_program subscribing = none
exit_of_program handling = none
exit_of_program (finished none) = some (ok tt)
exit_of_program (finished (some x)) =
    some (fault (fatal "An error occured while running the executor"))
