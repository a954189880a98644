-- ===== src/Tests/World.antt =====
-- A small world for the tests: the outside is the list of the rules that are installed, the
-- containerizer is the one of types/types.go, the agent takes every call.
use mathlib.Core.List.{Mem, ne-nil_of_mem, mem_of_ne_of_mem, Perm}
use mathlib.Core.List.Perm
use mathlib.Core.Path.{subst}
use go_mesos_executor.Common.{
  ◌≡◌, ◌≢◌, refl, sym, ap, String, true, false, Option, none, some, List, [], ◌∷◌, String-discrete,
  Bool-cases, str_eq, if◌then◌else◌,
}
use go_mesos_executor.Common.Exec.{errorf, Result, ok, err, pure}
use go_mesos_executor.Container.{Containerizer}
use go_mesos_executor.Container.Fake.{fake_containerizer}
use go_mesos_executor.Executor.{Agent, Executor, Checker}
use go_mesos_executor.Hook.{Shared, Manager}
use go_mesos_executor.Mesos.{
  TaskInfo, Event, TaskStatus, Resource, ContainerInfo, bridge, PortMapping, task_running,
  http_check,
}
use go_mesos_executor.Outside.{Viper, Os, Net, Rule, Iptables, IsFirewall}

abbrev pub World : Type 0
World = List Rule

unfoldable List-discrete : {A : Type 0} → Discrete A → Discrete (List A)
List-discrete d [] [] = yes refl
List-discrete d [] (y ∷ ys) = no (λ e. cc)
List-discrete d (x ∷ xs) [] = no (λ e. cc)
List-discrete d (x ∷ xs) (y ∷ ys) = elim (d x y) [
  | no n ↦ no (λ e. n (cc e))
  | yes p ↦ elim (List-discrete d xs ys) [ no n ↦ no (λ e. n (cc e)) | yes q ↦ yes (cc (p, q)) ]
]

abbrev rule_parts : Rule → List (List String)
rule_parts r = (r.table ∷ []) ∷ (r.chain ∷ []) ∷ r.words ∷ []

unfoldable Rule-discrete : Discrete Rule
unfolding List-discrete String-discrete Bool-cases
Rule-discrete r s = elim (String-discrete r.table s.table) [
  | no n ↦ no (λ e. n (ap (λ (x : Rule). x.table) e))
  | yes p ↦ elim (String-discrete r.chain s.chain) [
    | no n ↦ no (λ e. n (ap (λ (x : Rule). x.chain) e))
    | yes q ↦ elim (List-discrete String-discrete r.words s.words) [
      | no n ↦ no (λ e. n (ap (λ (x : Rule). x.words) e))
      | yes t ↦ yes (cc (p, q, t))
    ]
  ]
]

abbrev pub passed : {r s : Rule} → Dec (r ≡ s) → World → Option World → Option World
passed (yes _) rs rest = some rs
passed (no _) rs none = none
passed {s = s} (no _) rs (some ts) = some (s ∷ ts)

-- Without the first rule that is this one, if there is one.
unfoldable pub remove_rule : Rule → World → Option World
unfolding Rule-discrete
remove_rule r [] = none
remove_rule r (s ∷ rs) = let rest = remove_rule r rs in passed (Rule-discrete r s) rs rest

abbrev pub deleted : World → Option World → Result (Unit {0}) × World
deleted rs none = (err (errorf "no such rule"), rs)
deleted rs (some ts) = (ok tt, ts)

abbrev pub test_iptables : Iptables World
test_iptables = record {
  new = pure tt;
  list = λ table chain. pure [];
  list_chains = λ table. pure ("ACCESS" ∷ []);
  append = λ r rs. (ok tt, r ∷ rs);
  delete = λ r rs. deleted rs (remove_rule r rs);
}

abbrev pub installed : World → List Rule
installed rs = rs

abbrev Removed : Rule → World → Option World → Type 0
Removed r rs o = (ts : World) × (o ≡ some ts) × Perm rs (r ∷ ts)

passed-Removed :
    (r s : Rule) (rs : World) (rest : Option World) (d : Dec (r ≡ s))
    → (r ≢ s → Removed r rs rest)
    → Removed r (s ∷ rs) (passed d rs rest)
passed-Removed r s rs rest (yes p) h =
    (rs, refl, subst (λ x. Perm (s ∷ rs) (x ∷ rs)) (sym p) (Perm.refl (s ∷ rs)))
passed-Removed r s rs rest (no n) h =
    let (ts, e, q) = h n in
    (s ∷ ts, ap (passed {r = r} {s = s} (no n) rs) e, Perm.trans (Perm.cons s q) (Perm.swap r s ts))

remove_rule-Removed : (r : Rule) (rs : World) → Mem r rs → Removed r rs (remove_rule r rs)
unfolding remove_rule
remove_rule-Removed r [] m = absurd (ne-nil_of_mem m refl)
remove_rule-Removed r (s ∷ rs) m =
    passed-Removed r s rs (remove_rule r rs) (Rule-discrete r s)
      (λ n. remove_rule-Removed r rs (mem_of_ne_of_mem n m))

pub test_iptables-IsFirewall : IsFirewall test_iptables installed
test_iptables-IsFirewall = record {
  new_keeps = λ o. refl;
  list_keeps = λ table chain o. refl;
  list_chains_keeps = λ table o. refl;
  append_ok = λ r o o' p.
      subst (λ l. Perm l (r ∷ o)) (ap (λ (x : Result (Unit {0}) × World). x.1) p)
        (Perm.refl (r ∷ o));
  delete_mem = λ r o m. let (ts, e, q) = remove_rule-Removed r o m in (ts, ap (deleted o) e, q);
}

abbrev pub test_viper : Viper
test_viper = record {
  get_string = λ key.
      if str_eq key "iptables.container_bridge_interface"
      then "docker0"
      else (if str_eq key "iptables.chains.prerouting"
          then "PREROUTING"
          else (if str_eq key "acl.chain" then "ACCESS" else "FORWARD"));
  get_bool = λ key. true;
  get_string_slice = λ key. "10.0.0.0/8" ∷ [];
}

-- Addresses have four parts here, and networks are not parsed.
abbrev pub test_net : Net
test_net = record { is_ip = λ s. str_eq s "1.2.3.4"; is_cidr = λ s. str_eq s "10.1.0.0/16" }

abbrev pub test_os : Os World
test_os = record {
  mkdir = λ path. pure tt;
  is_exist = λ e. true;
  symlink = λ target link. pure tt;
  remove = λ path. pure tt;
}

abbrev pub agent_of : Event → Agent World
agent_of event = record {
  do_call = λ call. pure tt;
  decode = pure event;
  new_uuid = λ o. ("uuid-1", o);
}

abbrev pub cores : Resource
cores = record { name = "cpus"; scalar = some (record { mantissa = 5; up = 0; down = 1 }) }

abbrev pub memory : Resource
memory = record { name = "mem"; scalar = some (record { mantissa = 100; up = 0; down = 0 }) }

abbrev web_port : PortMapping
web_port = record { host_port = 31000; container_port = 80; protocol = some "tcp" }

abbrev web_container : ContainerInfo
web_container = record {
  docker = some (record {
    image = "web";
    network = some bridge;
    port_mappings = web_port ∷ [];
    privileged = none;
  });
  network_infos = [];
  volumes = [];
}

-- A task with a health check, a port and a label that opens it.
abbrev pub web_task : TaskInfo
web_task = record {
  task_id = "web.1";
  resources = cores ∷ memory ∷ [];
  command = none;
  container = some web_container;
  health_check = some (record {
    check_type = some http_check;
    interval_seconds = none;
    consecutive_failures = none;
    command = none;
    http = none;
    tcp_port = none;
  });
  labels = some (record { key = "EXECUTOR_0_ACL"; value = some "1.2.3.4,10.1.0.0/16" } ∷ []);
}

-- A task that asks for no memory.
abbrev pub small_task : TaskInfo
small_task = record web_task { resources = cores ∷ [] }

abbrev one_rule : Rule
one_rule = record { table = "filter"; chain = "INPUT"; words = "-j" ∷ "DROP" ∷ [] }

abbrev pub shared_of : TaskInfo → Shared World
shared_of task = record {
  task_info = task;
  framework_info = record { name = "marathon" };
  netns_hook_container_pid = 0;
  netns_hook_symlink_path = "";
  iptables_hook_container_ip_cache = [];
  outside = one_rule ∷ [];
}

abbrev pub executor_with : Option Checker → Executor World
executor_with checker = record {
  agent_info = record { hostname = "agent" };
  container_id = "c1";
  container_name = "mesos-web";
  executor_id = "executor";
  executor_info = record { executor_id = "executor" };
  framework_id = "framework";
  health_checker = checker;
  is_shutdown = false;
  unacked_updates = [];
  goroutines = [];
  shared = shared_of web_task;
}

abbrev pub no_hooks : Manager World
no_hooks = record { enabled_hooks = "acl" ∷ "netns" ∷ []; hooks = [] }

abbrev pub engine : Containerizer World
engine = fake_containerizer

abbrev pub running_status : TaskStatus
running_status = record {
  executor_id = "executor";
  task_id = "web.1";
  uuid = "uuid-1";
  state = some task_running;
  message = none;
  healthy = none;
}
