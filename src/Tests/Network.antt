-- ===== src/Tests/Network.antt =====
-- Checks, addresses and containers in a world that holds the namespace of the thread.
use go_mesos_executor.Common.{◌≡◌, refl, String, true, some, [], ◌∷◌, str_eq}
use go_mesos_executor.Common.Exec.{ok, pure}
use go_mesos_executor.Common.Int.{pos}
use go_mesos_executor.Common.Table.{lookup}
use go_mesos_executor.Common.Text.{itoa}
use go_mesos_executor.Container.Docker.{DockerClient, bind_ports, network_mode_of}
use go_mesos_executor.Container.Docker.Addresses.{Interfaces, container_get_ips_by_interface}
use go_mesos_executor.Container.Docker.Addresses.Found.{Found, container_get_ips_by_interface-Found}
use go_mesos_executor.Container.Docker.Create.{
  last_for, bind_ports-last_for, network_pre_create-network_mode_of,
}
use go_mesos_executor.Health.Check.{Dialer, check_http, probe_http}
use go_mesos_executor.Health.Check.Healthy.{Answered, check_http-Answered}
use go_mesos_executor.Health.Check.Home.{check_http-home}
use go_mesos_executor.Hook.{Shared}
use go_mesos_executor.Hook.Network.{network_pre_create, set_user_network, set_network}
use go_mesos_executor.Mesos.{get_port_mappings}
use go_mesos_executor.Namespace.{Netns, Thread, enter_network_namespace, exit_network_namespace}
use go_mesos_executor.Namespace.Return.{IsNetns}
use go_mesos_executor.Tests.World.{World, engine, shared_of, web_task, test_viper}

-- The namespace is its path.
abbrev test_netns : Netns String String
test_netns = record {
  get_from_path = λ path. pure path;
  unique_id = λ ns. ns;
  set = λ ns o. (ok tt, ns);
}

abbrev home : String
home = "/proc/1/ns/net"

test_netns-IsNetns : IsNetns test_netns home (λ o. o)
test_netns-IsNetns = record { set_ok = λ ns o o' p. cc p; set_current = λ o. (home, refl) }

abbrev test_dialer : Dialer String (Unit {0})
test_dialer = record {
  dial = λ address. pure tt;
  fprintf = λ conn format. pure tt;
  read_response = λ conn. pure 302;
  close = λ conn. pure tt;
}

abbrev started : Thread String
started = record { locks = 0; outside = home }

abbrev after_http : Thread String
after_http = (check_http test_viper test_netns home test_dialer web_task 666 started).1

check_http-home_example : (after_http.outside ≡ home) × (after_http.locks ≡ 0)
unfolding check_http probe_http enter_network_namespace exit_network_namespace itoa
check_http-home_example =
    check_http-home test_viper test_netns home test_dialer (λ o. o) test_netns-IsNetns web_task 666
      started after_http true refl refl

check_http-Answered_example : Answered test_viper test_netns home test_dialer web_task
unfolding check_http probe_http enter_network_namespace exit_network_namespace itoa
check_http-Answered_example =
    check_http-Answered test_viper test_netns home test_dialer web_task 666 started after_http refl

abbrev test_client : DockerClient String
test_client = record {
  create_container = λ options. pure "c1";
  start_container = λ id. pure tt;
  stop_container = λ id timeout. pure tt;
  remove_container = λ id. pure tt;
  inspect_pid = λ id. pure 666;
  wait_container = λ id. pure (pos 0);
}

-- An interface is its address, and a network has one address.
abbrev test_interfaces : Interfaces String String String String
test_interfaces = record {
  interface_by_name = λ name. pure "172.17.0.1";
  interfaces = pure ("127.0.0.1" ∷ "172.17.0.1" ∷ []);
  addrs = λ i. pure (i ∷ []);
  ip_net = λ a. some a;
  ip = λ n. n;
  contains = λ n ip. str_eq n ip;
}

abbrev after_search : Thread String
after_search =
    (container_get_ips_by_interface test_interfaces test_viper test_netns home test_client "c1"
      "docker0" started).1

container_get_ips_by_interface-Found_example :
    Found test_interfaces test_viper test_netns home test_client
      (λ o. o)
      "docker0"
      started
      after_search
      ("172.17.0.1" ∷ [])
unfolding container_get_ips_by_interface enter_network_namespace exit_network_namespace itoa
container_get_ips_by_interface-Found_example =
    container_get_ips_by_interface-Found test_interfaces test_viper test_netns home test_client
      (λ o. o) test_netns-IsNetns "c1" "docker0" started after_search ("172.17.0.1" ∷ []) refl

bind_ports-last_for_example :
    lookup "80/tcp" (bind_ports [] (get_port_mappings web_task))
    ≡ last_for "80/tcp" (get_port_mappings web_task)
bind_ports-last_for_example = bind_ports-last_for "80/tcp" (get_port_mappings web_task)

abbrev joining : Shared World
joining = (network_pre_create engine (shared_of web_task)).1

network_pre_create-network_mode_of_example :
    network_mode_of (record web_task { container = joining.task_info.container }) ≡ ok "marathon"
unfolding network_pre_create set_user_network set_network
network_pre_create-network_mode_of_example =
    network_pre_create-network_mode_of engine (shared_of web_task) joining web_task refl
