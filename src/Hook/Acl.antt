-- ===== src/Hook/Acl.antt =====
-- hook/acl.go: the labels of a task open its ports, to the networks that each label lists.
pub mod LabelKey
pub mod Rules
pub mod RoundTrip
use go_mesos_executor.Common.{
  ◌||◌, get_elem?, ℕ, String, ◌<>◌, Bool, true, false, Option, none, some, List, [], ◌∷◌, str_eq,
  if◌then◌else◌,
}
use go_mesos_executor.Common.Exec.{
  GoError, errorf, error_text, Result, ok, err, fault, Exec, pure, raise, gets, ◌>>=◌, ◌>>◌,
}
use go_mesos_executor.Common.Int.{pos}
use go_mesos_executor.Common.Text.{itoa, split}
use go_mesos_executor.Container.{Containerizer}
use go_mesos_executor.Hook.{Hook, Shared, Action}
use go_mesos_executor.Hook.Firewall.{issue}
use go_mesos_executor.Hook.Acl.LabelKey.{find_port_index, atoi}
use go_mesos_executor.Mesos.{
  Network, bridge, user, PortMapping, TaskInfo, Label, get_network, get_port_mappings, get_labels,
  get_protocol, or_default,
}
use go_mesos_executor.Outside.{Viper, Net, Iptables, Rule, on_outside}

-- The template of a rule, filled in, and split at blanks.
unfoldable pub acl_rule : String → PortMapping → String → List String
acl_rule interface p ip = split b' ' (
    "-i "
    <> interface
    <> " -p "
    <> get_protocol p
    <> " -s "
    <> ip
    <> " --dport "
    <> itoa p.host_port
    <> " -j ACCEPT")

abbrev pub wrap_acl : GoError → GoError
wrap_acl e = errorf ("Error while injecting acl iptables rule: " <> error_text e)

-- A result that depends on no state.
abbrev pub lift : {O A : Type 0} → Result A → Exec O A
lift r o = (r, o)

-- The port mapping that a label means by its index.
unfoldable pub label_port : List PortMapping → String → Result PortMapping
label_port ports digits = elim (atoi digits) [
  | none ↦ err (errorf "Port index 9223372036854775807 is not valid")
  | some i ↦ elim (get_elem? ports i) [
    | none ↦ err (errorf ("Port index " <> itoa i <> " does not match port mapping definition"))
    | some p ↦ ok p
  ]
]

abbrev consed : String → Result (List String) → Result (List String)
consed ip (ok ips) = ok (ip ∷ ips)
consed ip (err e) = err e
consed ip (fault x) = fault x

-- Every item must be an address or a network; an address becomes a network of one.
unfoldable pub parse_ips : Net → List String → Result (List String)
parse_ips net [] = ok []
parse_ips net (ip ∷ ips) =
    let rest = parse_ips net ips in
    if net.is_ip ip
    then consed (ip <> "/32") rest
    else (if net.is_cidr ip then consed ip rest else err (errorf ("Invalid IP: " <> ip)))

-- "all" stands for an interface that is not set.
unfoldable pub external_interface : Viper → String
external_interface viper =
    if str_eq (viper.get_string "acl.external_interface") ""
    then "all"
    else viper.get_string "acl.external_interface"

has_chain : String → List String → Bool
has_chain chain [] = false
has_chain chain (c ∷ cs) = if str_eq c chain then true else has_chain chain cs

module _ {O : Type 0} (viper : Viper) (net : Net) where
  module _ (chain : String) (action : Rule → Exec O (Unit {0})) (stop : Bool)
      (ports : List PortMapping) where
    open_port : PortMapping → String → Exec O (Unit {0})
    open_port p ip = issue wrap_acl stop (
        action (record {
          table = "filter";
          chain = chain;
          words = acl_rule (external_interface viper) p ip;
        }))

    open_to : PortMapping → List String → Exec O (Unit {0})
    unfolding open_port
    open_to p [] = pure tt
    open_to p (ip ∷ ips) = open_port p ip >> open_to p ips

    open_label : Option String → String → Exec O (Unit {0})
    unfolding open_to
    open_label none value = pure tt
    open_label (some digits) value = do
      p ← lift (label_port ports digits)
      ips ← lift (parse_ips net (split b',' value))
      open_to p ips

    label_loop : List Label → Exec O (Unit {0})
    unfolding open_label
    label_loop [] = pure tt
    label_loop (l ∷ ls) =
        open_label (find_port_index l.key) (or_default "" l.value) >> label_loop ls

    open_ports : String → List PortMapping → Exec O (Unit {0})
    unfolding open_port
    open_ports cidr [] = pure tt
    open_ports cidr (p ∷ ps) = open_port p cidr >> open_ports cidr ps

    cidr_loop : List String → Exec O (Unit {0})
    unfolding open_ports
    cidr_loop [] = pure tt
    cidr_loop (cidr ∷ cidrs) = open_ports cidr ports >> cidr_loop cidrs

  unfoldable pub generate_acl :
      TaskInfo → String → (Rule → Exec O (Unit {0})) → Bool → Exec O (Unit {0})
  unfolding label_loop cidr_loop
  generate_acl info chain action stop =
      label_loop chain action stop (get_port_mappings info) (get_labels info)
      >> cidr_loop chain action stop (get_port_mappings info)
          (viper.get_string_slice "acl.default_allowed_cidr")

  module _ (driver : Iptables O) where
    listed_chain : String → Exec O String
    unfolding has_chain
    listed_chain chain = do
      chains ← driver.list_chains "filter"
      if has_chain chain chains
          then pure chain
          else raise (errorf ("Chain " <> chain <> " does not exists"))

    -- The chain of the configuration: set, not built in, and there.
    unfoldable pub check_chain : Exec O String
    unfolding listed_chain
    check_chain =
        let chain = viper.get_string "acl.chain" in
        if str_eq chain ""
        then raise (errorf "no iptables chain set for acl hook")
        else (if str_eq chain "FORWARD" || str_eq chain "OUTPUT"
            then raise (errorf "forward and ouput chains cannot be used for acl injection")
            else listed_chain chain)

    apply_acl : (Rule → Exec O (Unit {0})) → Bool → Exec (Shared O) (Unit {0})
    apply_acl action stop = do
      on_outside driver.new
      chain ← on_outside check_chain
      task ← gets (λ s. s.task_info)
      on_outside (generate_acl task chain action stop)

    -- The hook works for the networks bridge and user.
    on_managed : Exec (Shared O) (Unit {0}) → Exec (Shared O) (Unit {0})
    on_managed m s = elim (get_network s.task_info) [ bridge ↦ m s | user ↦ m s | _ ↦ (pure tt) s ]

    unfoldable pub acl_post_run : String → Action O
    unfolding on_managed apply_acl
    acl_post_run id c = on_managed (apply_acl driver.append true)

    unfoldable pub acl_pre_stop : String → Action O
    unfolding on_managed apply_acl
    acl_pre_stop id c = on_managed (apply_acl driver.delete false)

    unfoldable pub acl_hook : Hook O
    unfolding acl_post_run acl_pre_stop
    acl_hook = record {
      name = "acl";
      priority = pos 0;
      run_pre_create = none;
      run_pre_run = none;
      run_post_run = some acl_post_run;
      run_pre_stop = some acl_pre_stop;
      run_post_stop = none;
    }
