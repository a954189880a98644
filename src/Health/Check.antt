-- ===== src/Health/Check.antt =====
-- healthcheck/healthcheck.go: the checks. A check is the call whose answer on its channel is the
-- result of a tick. Network checks enter the network namespace of the container's process.
pub mod Home
pub mod Healthy
use go_mesos_executor.Common.{
  ℕ, String, ◌<>◌, Bool, true, false, Option, none, some, List, [], ◌∷◌, leb, ◌&&◌, if◌then◌else◌,
}
use go_mesos_executor.Common.Exec.{Exec, Result, ok, err, fault, pure, settle, attempt, ◌>>=◌, ◌>>◌}
use go_mesos_executor.Common.Text.{itoa}
use go_mesos_executor.Container.{Containerizer}
use go_mesos_executor.Mesos.{
  CheckType, unknown_check, command_check, http_check, tcp_check, TaskInfo, HealthCheck,
  HttpCheckInfo, CommandInfo, Network, bridge, get_network, or_default,
}
use go_mesos_executor.Namespace.{
  Netns, Thread, on_thread, deferring, enter_network_namespace, exit_network_namespace,
}
use go_mesos_executor.Outside.{Viper}

-- `net.DialTimeout("tcp", …)`, `fmt.Fprintf(conn, format)`, the status code that
-- `http.ReadResponse` reads, and `conn.Close()`.
pub record Dialer (O : Type 0) (Conn : Type 0) : Type 0 where
  pub dial : String → Exec O Conn
  pub fprintf : Conn → String → Exec O (Unit {0})
  pub read_response : Conn → Exec O ℕ
  pub close : Conn → Exec O (Unit {0})

abbrev http_port : Option HttpCheckInfo → ℕ
http_port none = 0
http_port (some h) = h.port

abbrev http_path : Option HttpCheckInfo → String
http_path none = ""
http_path (some h) = or_default "" h.path

abbrev http_of : Option HealthCheck → Option HttpCheckInfo
http_of none = none
http_of (some h) = h.http

abbrev tcp_of : Option HealthCheck → ℕ
tcp_of none = 0
tcp_of (some h) = or_default 0 h.tcp_port

abbrev command_of : Option HealthCheck → Option CommandInfo
command_of none = none
command_of (some h) = h.command

-- What a command runs as: in a shell, which is the default, or as one word.
unfoldable pub command_words : Option CommandInfo → List String
command_words none = "/bin/sh" ∷ "-c" ∷ "" ∷ []
command_words (some c) =
    if or_default true c.shell
    then "/bin/sh" ∷ "-c" ∷ or_default "" c.value ∷ []
    else or_default "" c.value ∷ []

-- An error is an unhealthy answer, and so is a command that is not done in time.
unfoldable pub check_command :
    {O : Type 0} → Containerizer O → TaskInfo → String → Bool → Exec O Bool
unfolding command_words
check_command c task id timed_out o =
    if timed_out
    then (ok false, (c.container_exec id (command_words (command_of task.health_check)) o).1)
    else settle (c.container_exec id (command_words (command_of task.health_check)) o)
        (λ _. pure false) (λ _. pure true)

module _ {O Ns Conn : Type 0} (viper : Viper) (netns : Netns O Ns) (current : Ns)
    (dialer : Dialer O Conn) where
  abbrev with_connection : ℕ → (Conn → Exec (Thread O) Bool) → Exec (Thread O) Bool
  with_connection port body t =
      settle (on_thread (dialer.dial ("localhost:" <> itoa port)) t) (λ _. pure false)
        (λ conn t'. deferring (body conn t') (on_thread (dialer.close conn)))

  -- The request is a format for `fmt.Fprintf`; an error of the write is dropped.
  exchange : String → Conn → Exec (Thread O) Bool
  exchange path conn = do
    attempt (on_thread (dialer.fprintf conn ("GET " <> path <> " HTTP/1.0\r\n\r\n")))
    λ t.
        settle (on_thread (dialer.read_response conn) t) (λ _. pure false)
          (λ code. pure (leb 200 code && leb code 399))

  unfoldable pub probe_http : TaskInfo → Exec (Thread O) Bool
  unfolding exchange
  probe_http task =
      with_connection (http_port (http_of task.health_check))
        (exchange (http_path (http_of task.health_check)))

  unfoldable pub probe_tcp : TaskInfo → Exec (Thread O) Bool
  probe_tcp task = with_connection (tcp_of task.health_check) (λ conn. pure true)

  entered : ℕ → Exec (Thread O) Bool → Exec (Thread O) Bool
  entered pid probe t =
      settle (enter_network_namespace viper netns current pid t) (λ _. pure false) (λ _. probe)

  -- The namespace is entered for bridge networks alone, and left when the check returns.
  in_network : TaskInfo → ℕ → Exec (Thread O) Bool → Exec (Thread O) Bool
  unfolding entered
  in_network task pid probe t = elim (get_network task) [
    | bridge ↦ deferring (entered pid probe t) (exit_network_namespace viper netns current)
    | _ ↦ probe t
  ]

  unfoldable pub check_http : TaskInfo → ℕ → Exec (Thread O) Bool
  unfolding in_network
  check_http task pid = in_network task pid (probe_http task)

  unfoldable pub check_tcp : TaskInfo → ℕ → Exec (Thread O) Bool
  unfolding in_network
  check_tcp task pid = in_network task pid (probe_tcp task)
