-- ===== src/Container/Docker/Client.antt =====
-- container/docker.go, `NewDockerContainerizer`: the endpoint of the engine and the client for it.
use text.Mathlib.Text.{starts_with}
use go_mesos_executor.Common.{ℕ, String, ◌<>◌, ◌≡◌, refl, if◌then◌else◌}
use go_mesos_executor.Common.Exec.{Exec, pure, ◌>>=◌}
use go_mesos_executor.Container.{Containerizer}
use go_mesos_executor.Container.Docker.{DockerClient}
use go_mesos_executor.Container.Docker.Addresses.{Interfaces}
use go_mesos_executor.Container.Docker.Engine.{docker_containerizer}
use go_mesos_executor.Container.Docker.Poll.{ExecClient}
use go_mesos_executor.Namespace.{Netns, Thread, on_thread}
use go_mesos_executor.Outside.{Viper}

-- A path is taken for a Unix socket; what has a protocol stays as it is.
unfoldable pub endpoint_of : String → String
endpoint_of socket = if starts_with socket "/" then "unix://" <> socket else socket

-- `docker.NewClient`, with its two uses.
pub record Client (O : Type 0) : Type 0 where
  pub engine : DockerClient O
  pub commands : ExecClient O

module _ {O Interface Addr IpNet Ns : Type 0} (net : Interfaces O Interface Addr IpNet)
    (viper : Viper) (netns : Netns O Ns) (current : Ns) (rounds : ℕ)
    (new_client : String → Exec O (Client O)) where
  unfoldable pub new_docker_containerizer : String → Exec (Thread O) (Containerizer (Thread O))
  unfolding endpoint_of
  new_docker_containerizer socket = do
    client ← on_thread (new_client (endpoint_of socket))
    pure (docker_containerizer net viper netns current client.engine client.commands rounds)

endpoint_of_path : endpoint_of "/var/run/docker.sock" ≡ "unix:///var/run/docker.sock"
unfolding endpoint_of
endpoint_of_path = refl

endpoint_of_tcp : endpoint_of "tcp://10.0.0.1:2375" ≡ "tcp://10.0.0.1:2375"
unfolding endpoint_of
endpoint_of_tcp = refl
