-- ===== src/Hook/Firewall/Teardown.antt =====
-- Rules that are appended, then deleted, for hook/acl.go and hook/iptables.go.
use mathlib.Core.List.{mem-cons_self, Perm, perm_middle}
use mathlib.Core.List.Perm
use mathlib.Core.Path.{subst}
use go_mesos_executor.Common.{◌≡◌, refl, ap, true, false, List, [], ◌∷◌, ◌++◌}
use go_mesos_executor.Common.Exec.{GoError, Result, ok, err, fault}
use go_mesos_executor.Outside.{Rule, Iptables, IsFirewall}
use go_mesos_executor.Hook.Firewall.{issue_all}

module _ {O : Type 0} (d : Iptables O) (rules : O → List Rule) (F : IsFirewall d rules) where
  module _ (wrap : GoError → GoError) where
    append_rest :
        (r : Rule) (rs : List Rule) (o o' : O) (x : Result (Unit {0}) × O)
        → d.append r o ≡ x
        → ((t : O)
            → issue_all wrap true d.append rs t ≡ (ok tt, o')
            → Perm (rules o') (rs ++ rules t))
        → issue_all wrap true d.append (r ∷ rs) o ≡ (ok tt, o')
        → Perm (rules o') (r ∷ (rs ++ rules o))
    unfolding issue_all
    append_rest r rs o o' (ok u, t) e rec p =
        Perm.trans (rec t (cc (e, p)))
          (Perm.trans (Perm.append (Perm.refl rs) (F.append_ok r o t e)) (perm_middle rs (rules o)))
    append_rest r rs o o' (err x, t) e rec p = absurd (cc (e, p))
    append_rest r rs o o' (fault x, t) e rec p = absurd (cc (e, p))

    -- An append pass that returns no error has added every rule of the list.
    pub append_all :
        (rs : List Rule) (o o' : O)
        → issue_all wrap true d.append rs o ≡ (ok tt, o')
        → Perm (rules o') (rs ++ rules o)
    unfolding issue_all
    append_all [] o o' p =
        subst (λ l. Perm l (rules o)) (ap (λ (x : Result (Unit {0}) × O). rules x.1) p)
          (Perm.refl (rules o))
    append_all (r ∷ rs) o o' p =
        append_rest r rs o o' (d.append r o) refl (λ t q. append_all rs t o' q) p

    -- A delete pass over rules that are installed removes one of each, and the others stay.
    pub delete_all :
        (rs base : List Rule) (o : O)
        → Perm (rules o) (rs ++ base)
        → Perm (rules (issue_all wrap false d.delete rs o).1) base
    unfolding issue_all
    delete_all [] base o p = p
    delete_all (r ∷ rs) base o p =
        let (o', e, q) = F.delete_mem r o ((Perm.mem_iff p).1 mem-cons_self) in
        rw e (delete_all rs base o' (Perm.cons_inv (Perm.trans (Perm.symm q) p)))
