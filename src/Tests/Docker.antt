-- ===== src/Tests/Docker.antt =====
-- The containerizer for Docker in the small world, whose namespaces are not told apart.
use go_mesos_executor.Common.{◌≡◌, ◌≤◌, refl, ap, String, true, false, some, [], ◌∷◌, arith, str_eq}
use go_mesos_executor.Common.Exec.{ok, Result, pure}
use go_mesos_executor.Common.Int.{pos}
use go_mesos_executor.Container.Docker.Poll.Endless.{
  Polling, selecting, answering, created, started, sleeps, inspected, tells, stays, polls, InLoop,
  PollRun-InLoop_few,
}
use go_mesos_executor.Container.{Containerizer}
use go_mesos_executor.Container.Docker.{DockerClient}
use go_mesos_executor.Container.Docker.Addresses.{Interfaces}
use go_mesos_executor.Container.Docker.Engine.{docker_containerizer}
use go_mesos_executor.Container.Docker.Poll.{
  ExecClient, no_round, one_round, container_exec, container_exec-answer_of,
}
use go_mesos_executor.Hook.{Shared}
use go_mesos_executor.Namespace.{Netns, Thread, on_thread}
use go_mesos_executor.Outside.{Iptables, IsFirewall, Rule}
use go_mesos_executor.Tests.World.{
  World, web_task, test_viper, test_iptables, test_iptables-IsFirewall,
}

abbrev pub world_netns : Netns World String
world_netns = record {
  get_from_path = λ path. pure path;
  unique_id = λ ns. ns;
  set = λ ns. pure tt;
}

abbrev pub world_client : DockerClient World
world_client = record {
  create_container = λ options. pure "c1";
  start_container = λ id. pure tt;
  stop_container = λ id timeout. pure tt;
  remove_container = λ id. pure tt;
  inspect_pid = λ id. pure 666;
  wait_container = λ id. pure (pos 0);
}

abbrev pub world_interfaces : Interfaces World String String String
world_interfaces = record {
  interface_by_name = λ name. pure "172.17.0.2";
  interfaces = pure ("127.0.0.1" ∷ "172.17.0.2" ∷ []);
  addrs = λ i. pure (i ∷ []);
  ip_net = λ a. some a;
  ip = λ n. n;
  contains = λ n ip. str_eq n ip;
}

abbrev pub thread_iptables : Iptables (Thread World)
thread_iptables = record {
  new = on_thread test_iptables.new;
  list = λ table chain. on_thread (test_iptables.list table chain);
  list_chains = λ table. on_thread (test_iptables.list_chains table);
  append = λ r. on_thread (test_iptables.append r);
  delete = λ r. on_thread (test_iptables.delete r);
}

pub thread_iptables-IsFirewall : IsFirewall thread_iptables (λ t. t.outside)
thread_iptables-IsFirewall = record {
  new_keeps = λ t. refl;
  list_keeps = λ table chain t. refl;
  list_chains_keeps = λ table t. refl;
  append_ok = λ r t t' p.
      test_iptables-IsFirewall.append_ok r t.outside t'.outside
        (ap (λ (x : Result (Unit {0}) × Thread World). (x.0, x.1.outside)) p);
  delete_mem = λ r t m.
      let (o, e, q) = test_iptables-IsFirewall.delete_mem r t.outside m in
      (
        record t { outside = o },
        ap (λ (x : Result (Unit {0}) × World). (x.0, record t { outside = x.1 })) e,
        q,
      );
}

abbrev mark : Rule
mark = record { table = "filter"; chain = "INPUT"; words = "-j" ∷ "DROP" ∷ [] }

-- A command that runs for a round, then ends with the exit code 0: it has ended once a rule is there.
abbrev pub world_exec : ExecClient World
world_exec = record {
  create_exec = λ id cmd. pure "x1";
  start_exec = λ id. pure tt;
  context_done = λ o. false;
  inspect_exec = λ id o.
      (ok (record { exit_code = pos 0; running = elim o [ [] ↦ true | _ ∷ _ ↦ false ] }), mark ∷ o);
}

container_exec-answer_of_example :
    container_exec world_exec 5 "c1" ("true" ∷ []) [] ≡ (ok tt, mark ∷ mark ∷ [])
container_exec-answer_of_example =
    container_exec-answer_of world_exec 5 "c1" "x1" ("true" ∷ [])
      (record { exit_code = pos 0; running = false }) refl refl
      (one_round (record { exit_code = pos 0; running = true }) refl refl refl no_round)
      (omega arith) refl refl refl

abbrev pub engine : Containerizer (Thread World)
engine =
    docker_containerizer world_interfaces test_viper world_netns "host" world_client world_exec 5

abbrev pub begun : Shared (Thread World)
begun = record {
  task_info = web_task;
  framework_info = record { name = "marathon" };
  netns_hook_container_pid = 0;
  netns_hook_symlink_path = "";
  iptables_hook_container_ip_cache = [];
  outside = record { locks = 0; outside = mark ∷ [] };
}

-- The command has been started, and the caller waits.
abbrev polling : Polling
polling = record { place = selecting; reading = true; cancelled = false; answers = 0 }

-- The caller has an answer, the goroutine is about to send another one.
abbrev answered_twice : Polling
answered_twice = record {
  place = answering (ok tt);
  reading = false;
  cancelled = false;
  answers = 1;
}

PollRun-InLoop_few_example : InLoop answered_twice.place × (answered_twice.answers ≤ 1)
PollRun-InLoop_few_example =
    PollRun-InLoop_few {s = polling} (polls (polls stays (created refl)) (started refl)) tt (
      polls
        (polls
          (polls (polls (polls stays (sleeps refl refl)) (inspected (ok tt) refl))
            (tells {answer = ok tt} refl refl))
          (sleeps refl refl))
        (inspected (ok tt) refl))
