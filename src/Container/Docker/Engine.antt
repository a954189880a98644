-- ===== src/Container/Docker/Engine.antt =====
-- The containerizer of container/docker.go as an instance of the interface, for a thread.
use go_mesos_executor.Common.{ℕ}
use go_mesos_executor.Container.{Containerizer}
use go_mesos_executor.Container.Docker.{
  DockerClient, container_create, container_run, container_stop, container_remove,
  container_get_pid, container_wait,
}
use go_mesos_executor.Container.Docker.Addresses.{Interfaces, container_get_ips_by_interface}
use go_mesos_executor.Container.Docker.Poll.{ExecClient, container_exec}
use go_mesos_executor.Namespace.{Netns, Thread, on_thread}
use go_mesos_executor.Outside.{Viper}

-- `rounds` bounds the questions about a command that runs.
abbrev pub docker_containerizer :
    {O Interface Addr IpNet Ns : Type 0}
    → Interfaces O Interface Addr IpNet
    → Viper
    → Netns O Ns
    → Ns
    → DockerClient O
    → ExecClient O
    → ℕ
    → Containerizer (Thread O)
docker_containerizer net viper netns current client exec rounds = record {
  container_create = λ info. on_thread (container_create client info);
  container_get_pid = λ id. on_thread (container_get_pid client id);
  container_remove = λ id. on_thread (container_remove client id);
  container_run = λ id. on_thread (container_run client id);
  container_stop = λ id. on_thread (container_stop client id);
  container_wait = λ id. on_thread (container_wait client id);
  container_exec = λ id cmd. on_thread (container_exec exec rounds id cmd);
  container_get_ips_by_interface = container_get_ips_by_interface net viper netns current client;
}
