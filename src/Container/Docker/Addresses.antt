-- ===== src/Container/Docker/Addresses.antt =====
-- `ContainerGetIPsByInterface` (container/docker.go): the addresses of a container in the networks of
-- an interface of the host.
pub mod Found
use go_mesos_executor.Common.{
  ℕ, String, Bool, Option, none, some, List, [], ◌∷◌, ◌++◌, if◌then◌else◌,
}
use go_mesos_executor.Common.Exec.{
  GoError, errorf, Exec, Result, ok, err, fault, pure, raise, attempt, ◌>>=◌, ◌>>◌,
}
use go_mesos_executor.Container.{Ip}
use go_mesos_executor.Container.Docker.{DockerClient}
use go_mesos_executor.Namespace.{
  Netns, Thread, on_thread, deferring, enter_network_namespace, exit_network_namespace,
}
use go_mesos_executor.Outside.{Viper}

-- Package net: interfaces, as the thread's namespace has them, and their addresses. `ip_net` is the
-- type assertion on an address, `contains` is `IPNet.Contains`.
pub record Interfaces (O Interface Addr IpNet : Type 0) : Type 0 where
  pub interface_by_name : String → Exec O Interface
  pub interfaces : Exec O (List Interface)
  pub addrs : Interface → Exec O (List Addr)
  pub ip_net : Addr → Option IpNet
  pub ip : IpNet → Ip
  pub contains : IpNet → Ip → Bool

module _ {O Interface Addr IpNet : Type 0} (net : Interfaces O Interface Addr IpNet) where
  -- An address with its network, or the error.
  asserted : {S : Type 0} → String → Option IpNet → Exec S IpNet
  asserted text none = raise (errorf text)
  asserted text (some n) = pure n

  addr_loop : IpNet → List Addr → Exec O (List Ip)
  unfolding asserted
  addr_loop host_net [] = pure []
  addr_loop host_net (a ∷ xs) = do
    n ← asserted "Could not retrieve containers network interface ip" (net.ip_net a)
    rest ← addr_loop host_net xs
    pure (if net.contains host_net (net.ip n) then net.ip n ∷ rest else rest)

  interface_loop : IpNet → List Interface → Exec O (List Ip)
  unfolding addr_loop
  interface_loop host_net [] = pure []
  interface_loop host_net (i ∷ is) = do
    xs ← net.addrs i
    found ← addr_loop host_net xs
    rest ← interface_loop host_net is
    pure (found ++ rest)

  host_loop : List Addr → Exec O (List Ip)
  unfolding interface_loop asserted
  host_loop [] = pure []
  host_loop (h ∷ hs) = do
    host_net ← asserted "Could not retrieve the host interface IP" (net.ip_net h)
    is ← net.interfaces
    found ← interface_loop host_net is
    rest ← host_loop hs
    pure (found ++ rest)

  module _ {Ns : Type 0} (viper : Viper) (netns : Netns O Ns) (current : Ns)
      (client : DockerClient O) where
    -- An error of the entry is dropped, and the search goes on in the namespace of the executor.
    searched : ℕ → List Addr → Exec (Thread O) (List Ip)
    unfolding host_loop
    searched pid hosts = do
      attempt (enter_network_namespace viper netns current pid)
      on_thread (host_loop hosts)

    search : ℕ → List Addr → Exec (Thread O) (List Ip)
    unfolding searched
    search pid hosts t =
        deferring (searched pid hosts t) (exit_network_namespace viper netns current)

    unfoldable pub container_get_ips_by_interface : String → String → Exec (Thread O) (List Ip)
    unfolding search
    container_get_ips_by_interface id name = do
      pid ← on_thread (client.inspect_pid id)
      host_interface ← on_thread (net.interface_by_name name)
      hosts ← on_thread (net.addrs host_interface)
      search pid hosts
