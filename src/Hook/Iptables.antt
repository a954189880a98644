-- ===== src/Hook/Iptables.antt =====
-- hook/iptables.go: rules on the host for masquerading and forwarding, appended on post-run and
-- deleted on pre-stop. The addresses of the containers stay in a cache between the two.
pub mod Rules
pub mod Passes
pub mod RoundTrip
use go_mesos_executor.Common.{
  ℕ, String, ◌<>◌, Bool, true, false, Option, none, some, List, [], ◌∷◌, str_eq, if◌then◌else◌,
}
use go_mesos_executor.Common.Exec.{
  GoError, errorf, Exec, pure, raise, settle, gets, modify, ◌>>=◌, ◌>>◌,
}
use go_mesos_executor.Common.Int.{pos}
use go_mesos_executor.Common.Text.{itoa, split}
use go_mesos_executor.Common.Table.{lookup, insert}
use go_mesos_executor.Container.{Containerizer, Ip}
use go_mesos_executor.Hook.{Hook, Shared, Action}
use go_mesos_executor.Hook.Firewall.{issue}
use go_mesos_executor.Mesos.{
  Network, host, bridge, no_network, user, PortMapping, get_network, get_port_mappings,
  get_protocol,
}
use go_mesos_executor.Outside.{Viper, Iptables, Rule, on_outside}

-- The five templates, filled in, and split at blanks.
unfoldable pub masquerade_rule : String → Ip → List String
masquerade_rule interface ip =
    split b' ' ("! -o " <> interface <> " -s " <> ip <> "/32 -j MASQUERADE --wait")

unfoldable pub dnat_rule : String → Ip → PortMapping → List String
dnat_rule interface ip p = split b' ' (
    "! -i "
    <> interface
    <> " -p "
    <> get_protocol p
    <> " -j DNAT --dport "
    <> itoa p.host_port
    <> " --to-destination "
    <> (ip <> ":" <> itoa p.container_port)
    <> " --wait")

unfoldable pub self_masquerade_rule : Ip → PortMapping → List String
self_masquerade_rule ip p = split b' ' (
    "-d "
    <> ip
    <> "/32 -p "
    <> get_protocol p
    <> " -s "
    <> ip
    <> "/32 -j MASQUERADE --dport "
    <> itoa p.container_port
    <> " --wait")

unfoldable pub forward_in_rule : String → Ip → PortMapping → List String
forward_in_rule interface ip p = split b' ' (
    "-d "
    <> ip
    <> "/32 ! -i "
    <> interface
    <> " -o "
    <> interface
    <> " -p "
    <> get_protocol p
    <> " -j ACCEPT --dport "
    <> itoa p.container_port
    <> " --wait")

unfoldable pub forward_out_rule : String → Ip → PortMapping → List String
forward_out_rule interface ip p = split b' ' (
    "-i "
    <> interface
    <> " ! -o "
    <> interface
    <> " -p "
    <> get_protocol p
    <> " -s "
    <> ip
    <> "/32 -j ACCEPT --sport "
    <> itoa p.container_port
    <> " --wait")

-- An error of the action is returned as it is.
abbrev pub same_error : GoError → GoError
same_error e = e

abbrev pub container_interface : Viper → String
container_interface viper = viper.get_string "iptables.container_bridge_interface"

module _ {O : Type 0} (viper : Viper) (driver : Iptables O) where
  -- `driver.List(table, chain)`; any error is replaced.
  check_listed : String → String → String → Exec O (Unit {0})
  check_listed table chain message o =
      settle (driver.list table chain o) (λ _. raise (errorf (chain <> message))) (λ _. pure tt)

  -- The three chains must be there before any rule is touched.
  unfoldable pub check_chains : Exec O (Unit {0})
  unfolding check_listed
  check_chains = do
    check_listed "nat" (viper.get_string "iptables.chains.prerouting")
        " prerouting chain doesn't exist in nat table"
    check_listed "filter" (viper.get_string "iptables.chains.forward")
        " forward chain doesn't exist in filter table"
    check_listed "nat" (viper.get_string "iptables.chains.postrouting")
        " postrouting chain doesn't exist in nat table"

  module _ (interface : String) (action : Rule → Exec O (Unit {0})) (stop : Bool) where
    act : String → String → List String → Exec O (Unit {0})
    act table chain words =
        issue same_error stop (action (record { table = table; chain = chain; words = words }))

    -- The part of the inner loop under `if ipMasquerading`.
    masquerade_port : Ip → PortMapping → Exec O (Unit {0})
    masquerade_port ip p = do
      act "nat" (viper.get_string "iptables.chains.prerouting") (dnat_rule interface ip p)
      act "nat" (viper.get_string "iptables.chains.postrouting") (self_masquerade_rule ip p)

    -- The part of the inner loop under `if ipForward`.
    forward_port : Ip → PortMapping → Exec O (Unit {0})
    forward_port ip p = do
      act "filter" (viper.get_string "iptables.chains.forward") (forward_in_rule interface ip p)
      act "filter" (viper.get_string "iptables.chains.forward") (forward_out_rule interface ip p)

    port_loop : Ip → List PortMapping → Exec O (Unit {0})
    port_loop ip [] = pure tt
    port_loop ip (p ∷ ps) = do
      if viper.get_bool "iptables.ip_masquerading" then masquerade_port ip p else pure tt
      if viper.get_bool "iptables.ip_forwarding" then forward_port ip p else pure tt
      port_loop ip ps

    masquerade_ip : Ip → Exec O (Unit {0})
    masquerade_ip ip =
        act "nat" (viper.get_string "iptables.chains.postrouting") (masquerade_rule interface ip)

    pub ip_loop : List PortMapping → List Ip → Exec O (Unit {0})
    unfolding port_loop masquerade_ip masquerade_port forward_port act
    ip_loop ports [] = pure tt
    ip_loop ports (ip ∷ ips) = do
      if viper.get_bool "iptables.ip_masquerading" then masquerade_ip ip else pure tt
      port_loop ip ports
      ip_loop ports ips

  unfoldable pub generate_iptables :
      List Ip → List PortMapping → String → (Rule → Exec O (Unit {0})) → Bool → Exec O (Unit {0})
  unfolding check_chains ip_loop
  generate_iptables ips ports interface action stop = do
    check_chains
    ip_loop interface action stop ports ips

  append_fetched : String → Containerizer O → List PortMapping → Exec (Shared O) (Unit {0})
  append_fetched id c ports = do
    ips ← on_outside (c.container_get_ips_by_interface id (container_interface viper))
    modify (λ s. record s {
      iptables_hook_container_ip_cache = insert id ips s.iptables_hook_container_ip_cache;
    })
    on_outside (generate_iptables ips ports (container_interface viper) driver.append true)

  post_run_rules : String → Action O
  unfolding append_fetched
  post_run_rules id c = do
    on_outside driver.new
    ports ← gets (λ s. get_port_mappings s.task_info)
    if str_eq (container_interface viper) ""
        then raise (errorf "could not retrieve container brigde interface")
        else append_fetched id c ports

  -- The hook works for the networks bridge and user.
  unfoldable pub iptables_post_run : String → Action O
  unfolding post_run_rules
  iptables_post_run id c s = elim (get_network s.task_info) [
    | bridge ↦ post_run_rules id c s
    | user ↦ post_run_rules id c s
    | _ ↦ (pure tt) s
  ]

  delete_cached : String → List PortMapping → Option (List Ip) → Exec (Shared O) (Unit {0})
  delete_cached id ports none = raise (errorf ("could not find ip in cache for container " <> id))
  delete_cached id ports (some ips) =
      if str_eq (container_interface viper) ""
      then raise (errorf "could not retrieve container brigde interface")
      else on_outside (generate_iptables ips ports (container_interface viper) driver.delete false)

  pre_stop_rules : String → Action O
  unfolding delete_cached
  pre_stop_rules id c = do
    on_outside driver.new
    ports ← gets (λ s. get_port_mappings s.task_info)
    cached ← gets (λ s. lookup id s.iptables_hook_container_ip_cache)
    delete_cached id ports cached

  -- The removal is skipped for the networks none and host, and for those alone.
  unfoldable pub iptables_pre_stop : String → Action O
  unfolding pre_stop_rules
  iptables_pre_stop id c s = elim (get_network s.task_info) [
    | no_network ↦ (pure tt) s
    | host ↦ (pure tt) s
    | _ ↦ pre_stop_rules id c s
  ]

  unfoldable pub iptables_hook : Hook O
  unfolding iptables_post_run iptables_pre_stop
  iptables_hook = record {
    name = "iptables";
    priority = pos 0;
    run_pre_create = none;
    run_pre_run = none;
    run_post_run = some iptables_post_run;
    run_pre_stop = some iptables_pre_stop;
    run_post_stop = none;
  }
