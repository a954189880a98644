-- ===== src/Hook/Acl/Rules.antt =====
-- The rules of the acl hook as a list, with the error that ends it, for `generateACL` (hook/acl.go).
use go_mesos_executor.Common.{
  ◌≡◌, refl, sym, ◌∙◌, ap, String, Bool, Option, none, some, List, [], ◌∷◌, ◌++◌,
}
use go_mesos_executor.Common.Exec.{
  Result, ok, err, fault, Exec, pure, continue, ◌>>◌, continue-cong, continue_assoc,
}
use go_mesos_executor.Common.Text.{split}
use go_mesos_executor.Hook.Firewall.{issue_all, issue_all-append}
use go_mesos_executor.Hook.Firewall.Issues.{Issues, Issues-pure, Issues-issue, Issues-seq}
use go_mesos_executor.Hook.Acl.{
  acl_rule, wrap_acl, lift, label_port, parse_ips, external_interface, open_port, open_to,
  open_label, label_loop, open_ports, cidr_loop, generate_acl,
}
use go_mesos_executor.Hook.Acl.LabelKey.{find_port_index}
use go_mesos_executor.Mesos.{
  PortMapping, TaskInfo, Label, get_port_mappings, get_labels, or_default,
}
use go_mesos_executor.Outside.{Viper, Net, Rule}

-- Rules, and what comes after the last of them.
abbrev pub Plan : Type 0
Plan = List Rule × Result (Unit {0})

-- One plan after another, unless the first one fails.
unfoldable pub then_plan : Plan → Plan → Plan
then_plan (rs, ok u) q = (rs ++ q.0, q.1)
then_plan (rs, err e) q = (rs, err e)
then_plan (rs, fault x) q = (rs, fault x)

module _ (viper : Viper) (net : Net) (chain : String) where
  abbrev opening : PortMapping → String → Rule
  opening p ip = record {
    table = "filter";
    chain = chain;
    words = acl_rule (external_interface viper) p ip;
  }

  opening_rules : PortMapping → List String → List Rule
  opening_rules p [] = []
  opening_rules p (ip ∷ ips) = opening p ip ∷ opening_rules p ips

  abbrev opened : Result PortMapping → Result (List String) → Plan
  opened (ok p) (ok ips) = (opening_rules p ips, ok tt)
  opened (ok p) (err e) = ([], err e)
  opened (ok p) (fault x) = ([], fault x)
  opened (err e) _ = ([], err e)
  opened (fault x) _ = ([], fault x)

  -- Nothing for other labels; an index or a value that is wrong is an error with no rule.
  label_plan : List PortMapping → Option String → String → Plan
  unfolding opening_rules
  label_plan ports none value = ([], ok tt)
  label_plan ports (some digits) value =
      opened (label_port ports digits) (parse_ips net (split b',' value))

  labels_plan : List PortMapping → List Label → Plan
  unfolding label_plan
  labels_plan ports [] = ([], ok tt)
  labels_plan ports (l ∷ ls) =
      then_plan (label_plan ports (find_port_index l.key) (or_default "" l.value))
        (labels_plan ports ls)

  cidr_rules : List PortMapping → String → List Rule
  cidr_rules [] cidr = []
  cidr_rules (p ∷ ps) cidr = opening p cidr ∷ cidr_rules ps cidr

  cidrs_rules : List PortMapping → List String → List Rule
  unfolding cidr_rules
  cidrs_rules ports [] = []
  cidrs_rules ports (cidr ∷ cidrs) = cidr_rules ports cidr ++ cidrs_rules ports cidrs

  -- The labels in order; then, if none is wrong, each port for each default network.
  unfoldable pub acl_plan : TaskInfo → Plan
  unfolding labels_plan cidrs_rules
  acl_plan info = then_plan (labels_plan (get_port_mappings info) (get_labels info)) (
    cidrs_rules (get_port_mappings info) (viper.get_string_slice "acl.default_allowed_cidr"),
    ok tt,
  )

module _ {O : Type 0} (action : Rule → Exec O (Unit {0})) (stop : Bool) where
  -- The action on each rule of the plan, then its end.
  abbrev pub follow : Plan → Exec O (Unit {0})
  follow q = issue_all wrap_acl stop action q.0 >> lift q.1

  record Follows (m : Exec O (Unit {0})) (q : Plan) : Type 0 where
    at : (o : O) → m o ≡ follow q o

  continue-pure : (r : Result (Unit {0}) × O) → r ≡ continue r (λ _. pure tt)
  continue-pure (ok u, o) = refl
  continue-pure (err e, o) = refl
  continue-pure (fault x, o) = refl

  Follows-Issues :
      {m : Exec O (Unit {0})} {rs : List Rule}
      → Issues wrap_acl stop action m rs
      → Follows m (rs, ok tt)
  Follows-Issues {rs = rs} a = record {
    at = λ o. a.at o ∙ continue-pure (issue_all wrap_acl stop action rs o);
  }

  Follows-then :
      {m n : Exec O (Unit {0})} (p q : Plan)
      → Follows m p
      → Follows n q
      → Follows (m >> n) (then_plan p q)
  unfolding then_plan
  Follows-then {m} {n} (rs, ok u) q a b = record {
    at = λ o.
        ap (λ x. continue x (λ _. n)) (a.at o)
        ∙ continue_assoc (issue_all wrap_acl stop action rs o) _ _
        ∙ continue-cong (issue_all wrap_acl stop action rs o) _ _ (λ _ t. b.at t)
        ∙ sym (continue_assoc (issue_all wrap_acl stop action rs o) _ _)
        ∙ ap (λ x. continue x (λ _. lift q.1))
            (sym (issue_all-append wrap_acl stop action rs q.0 o));
  }
  Follows-then {m} {n} (rs, err e) q a b = record {
    at = λ o.
        ap (λ x. continue x (λ _. n)) (a.at o)
        ∙ continue_assoc (issue_all wrap_acl stop action rs o) _ _;
  }
  Follows-then {m} {n} (rs, fault e) q a b = record {
    at = λ o.
        ap (λ x. continue x (λ _. n)) (a.at o)
        ∙ continue_assoc (issue_all wrap_acl stop action rs o) _ _;
  }

module _ {O : Type 0} (viper : Viper) (net : Net) (chain : String)
    (action : Rule → Exec O (Unit {0})) (stop : Bool) where
  open_port-Issues :
      (ports : List PortMapping) (p : PortMapping) (ip : String)
      → Issues wrap_acl stop action
          (open_port viper net chain action stop ports p ip)
          (opening viper net chain p ip ∷ [])
  unfolding open_port
  open_port-Issues ports p ip = Issues-issue wrap_acl stop action _

  open_to-Issues :
      (ports : List PortMapping) (p : PortMapping) (ips : List String)
      → Issues wrap_acl stop action
          (open_to viper net chain action stop ports p ips)
          (opening_rules viper net chain p ips)
  unfolding open_to opening_rules
  open_to-Issues ports p [] = Issues-pure wrap_acl stop action
  open_to-Issues ports p (ip ∷ ips) =
      Issues-seq wrap_acl stop action (open_port-Issues ports p ip) (open_to-Issues ports p ips)

  open_ports-Issues :
      (ports ps : List PortMapping) (cidr : String)
      → Issues wrap_acl stop action
          (open_ports viper net chain action stop ports cidr ps)
          (cidr_rules viper net chain ps cidr)
  unfolding open_ports cidr_rules
  open_ports-Issues ports [] cidr = Issues-pure wrap_acl stop action
  open_ports-Issues ports (p ∷ ps) cidr =
      Issues-seq wrap_acl stop action (open_port-Issues ports p cidr)
        (open_ports-Issues ports ps cidr)

  cidr_loop-Issues :
      (ports : List PortMapping) (cidrs : List String)
      → Issues wrap_acl stop action
          (cidr_loop viper net chain action stop ports cidrs)
          (cidrs_rules viper net chain ports cidrs)
  unfolding cidr_loop cidrs_rules
  cidr_loop-Issues ports [] = Issues-pure wrap_acl stop action
  cidr_loop-Issues ports (cidr ∷ cidrs) =
      Issues-seq wrap_acl stop action (open_ports-Issues ports ports cidr)
        (cidr_loop-Issues ports cidrs)

  open_label-Follows :
      (ports : List PortMapping) (index : Option String) (value : String)
      → Follows action stop
          (open_label viper net chain action stop ports index value)
          (label_plan viper net chain ports index value)
  unfolding open_label label_plan issue_all
  open_label-Follows ports none value =
      Follows-Issues action stop (Issues-pure wrap_acl stop action)
  open_label-Follows ports (some digits) value =
      by_results (label_port ports digits) (parse_ips net (split b',' value))
    where
      by_results :
          (x : Result PortMapping) (y : Result (List String))
          → Follows action stop
              (λ o.
                continue
                  (x, o)
                  (λ p o1.
                    continue (y, o1) (λ ips. open_to viper net chain action stop ports p ips)))
              (opened viper net chain x y)
      by_results (ok p) (ok ips) = Follows-Issues action stop (open_to-Issues ports p ips)
      by_results (ok p) (err e) = record { at = λ o. refl }
      by_results (ok p) (fault e) = record { at = λ o. refl }
      by_results (err e) y = record { at = λ o. refl }
      by_results (fault e) y = record { at = λ o. refl }

  label_loop-Follows :
      (ports : List PortMapping) (ls : List Label)
      → Follows action stop
          (label_loop viper net chain action stop ports ls)
          (labels_plan viper net chain ports ls)
  unfolding label_loop labels_plan
  label_loop-Follows ports [] = Follows-Issues action stop (Issues-pure wrap_acl stop action)
  label_loop-Follows ports (l ∷ ls) =
      Follows-then action stop _ _ (open_label-Follows ports _ _) (label_loop-Follows ports ls)

  -- `generate_acl` hands over the rules of the plan, in its order, and nothing else: up to the
  -- first error of the action if it stops on errors, and all of them if not. Then it returns the
  -- error of the first label that is wrong, if there is one, whether it stops on errors or not.
  pub generate_acl-plan :
      (info : TaskInfo) (o : O)
      → generate_acl viper net info chain action stop o
        ≡ follow action stop (acl_plan viper net chain info) o
  unfolding generate_acl acl_plan
  generate_acl-plan info o =
      (Follows-then action stop
          (labels_plan viper net chain (get_port_mappings info) (get_labels info))
          (
            cidrs_rules viper net chain (get_port_mappings info)
                (viper.get_string_slice "acl.default_allowed_cidr"),
            ok tt,
          )
          (label_loop-Follows (get_port_mappings info) (get_labels info))
          (Follows-Issues action stop (cidr_loop-Issues (get_port_mappings info) _))).at
        o
