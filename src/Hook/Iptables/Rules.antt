-- ===== src/Hook/Iptables/Rules.antt =====
-- The rules of the iptables hook as a list, for `generateIptables` (hook/iptables.go).
use go_mesos_executor.Common.{◌≡◌, String, Bool, List, [], ◌∷◌, ◌++◌, if◌then◌else◌}
use go_mesos_executor.Common.Exec.{Exec, continue, continue-cong}
use go_mesos_executor.Container.{Ip}
use go_mesos_executor.Hook.Firewall.{issue_all}
use go_mesos_executor.Hook.Firewall.Issues.{
  Issues, Issues-pure, Issues-issue, Issues-seq, Issues-if,
}
use go_mesos_executor.Hook.Iptables.{
  dnat_rule, self_masquerade_rule, masquerade_rule, forward_in_rule, forward_out_rule, same_error,
  act, masquerade_port, forward_port, masquerade_ip, port_loop, ip_loop, check_chains,
  generate_iptables,
}
use go_mesos_executor.Mesos.{PortMapping}
use go_mesos_executor.Outside.{Viper, Iptables, Rule}

abbrev rule : String → String → List String → Rule
rule table chain words = record { table = table; chain = chain; words = words }

module _ (viper : Viper) (interface : String) where
  abbrev prerouting : String
  prerouting = viper.get_string "iptables.chains.prerouting"

  abbrev postrouting : String
  postrouting = viper.get_string "iptables.chains.postrouting"

  abbrev forward : String
  forward = viper.get_string "iptables.chains.forward"

  -- Two rules of network translation and two of forwarding for a port, each pair if it is enabled.
  pub port_rules : Ip → List PortMapping → List Rule
  port_rules ip [] = []
  port_rules ip (p ∷ ps) =
      (if viper.get_bool "iptables.ip_masquerading"
        then rule "nat" prerouting (dnat_rule interface ip p)
          ∷ rule "nat" postrouting (self_masquerade_rule ip p)
          ∷ []
        else [])
      ++ ((if viper.get_bool "iptables.ip_forwarding"
            then rule "filter" forward (forward_in_rule interface ip p)
              ∷ rule "filter" forward (forward_out_rule interface ip p)
              ∷ []
            else [])
          ++ port_rules ip ps)

  -- For each address one rule of masquerading, then those of its ports.
  pub iptables_rules : List PortMapping → List Ip → List Rule
  iptables_rules ports [] = []
  iptables_rules ports (ip ∷ ips) =
      (if viper.get_bool "iptables.ip_masquerading"
        then rule "nat" postrouting (masquerade_rule interface ip) ∷ []
        else [])
      ++ (port_rules ip ports ++ iptables_rules ports ips)

module _ {O : Type 0} (viper : Viper) (driver : Iptables O) (interface : String)
    (action : Rule → Exec O (Unit {0})) (stop : Bool) where
  act-Issues :
      (table chain : String) (words : List String)
      → Issues same_error stop action
          (act viper driver interface action stop table chain words)
          (rule table chain words ∷ [])
  unfolding act
  act-Issues table chain words = Issues-issue same_error stop action (rule table chain words)

  masquerade_port-Issues :
      (ip : Ip) (p : PortMapping)
      → Issues same_error stop action (masquerade_port viper driver interface action stop ip p) (
          rule "nat" (prerouting viper interface) (dnat_rule interface ip p)
          ∷ rule "nat" (postrouting viper interface) (self_masquerade_rule ip p)
          ∷ [])
  unfolding masquerade_port
  masquerade_port-Issues ip p =
      Issues-seq same_error stop action (act-Issues _ _ _) (act-Issues _ _ _)

  forward_port-Issues :
      (ip : Ip) (p : PortMapping)
      → Issues same_error stop action (forward_port viper driver interface action stop ip p) (
          rule "filter" (forward viper interface) (forward_in_rule interface ip p)
          ∷ rule "filter" (forward viper interface) (forward_out_rule interface ip p)
          ∷ [])
  unfolding forward_port
  forward_port-Issues ip p = Issues-seq same_error stop action (act-Issues _ _ _) (act-Issues _ _ _)

  port_loop-Issues :
      (ip : Ip) (ps : List PortMapping)
      → Issues same_error stop action
          (port_loop viper driver interface action stop ip ps)
          (port_rules viper interface ip ps)
  unfolding port_loop port_rules
  port_loop-Issues ip [] = Issues-pure same_error stop action
  port_loop-Issues ip (p ∷ ps) =
      Issues-seq same_error stop action
        (Issues-if same_error stop action _ (masquerade_port-Issues ip p))
        (Issues-seq same_error stop action
          (Issues-if same_error stop action _ (forward_port-Issues ip p)) (port_loop-Issues ip ps))

  pub ip_loop-Issues :
      (ports : List PortMapping) (ips : List Ip)
      → Issues same_error stop action
          (ip_loop viper driver interface action stop ports ips)
          (iptables_rules viper interface ports ips)
  unfolding ip_loop iptables_rules masquerade_ip
  ip_loop-Issues ports [] = Issues-pure same_error stop action
  ip_loop-Issues ports (ip ∷ ips) =
      Issues-seq same_error stop action (Issues-if same_error stop action _ (act-Issues _ _ _))
        (Issues-seq same_error stop action (port_loop-Issues ip ports) (ip_loop-Issues ports ips))

  -- Once the three chains are found, `generate_iptables` hands over the rules of the list, in its
  -- order, and nothing else: up to the first error if it stops on errors, and all of them if not.
  -- Where a chain is missing it hands over none.
  pub generate_iptables-issue_all :
      (ips : List Ip) (ports : List PortMapping) (o : O)
      → generate_iptables viper driver ips ports interface action stop o
        ≡ continue
            (check_chains viper driver o)
            (λ _. issue_all same_error stop action (iptables_rules viper interface ports ips))
  unfolding generate_iptables
  generate_iptables-issue_all ips ports o =
      continue-cong (check_chains viper driver o) _ _ (λ _ t. (ip_loop-Issues ports ips).at t)
