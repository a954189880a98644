-- ===== src/Hook/Firewall/Issues.antt =====
-- Code that hands rules to an action, and the list of the rules that it hands over.
use go_mesos_executor.Common.{
  ◌≡◌, refl, sym, ◌∙◌, ap, Bool, true, false, List, [], ◌∷◌, ◌++◌, if◌then◌else◌,
}
use go_mesos_executor.Common.Exec.{
  GoError, Result, Exec, ok, err, fault, pure, continue, ◌>>◌, continue-cong,
}
use go_mesos_executor.Outside.{Rule}
use go_mesos_executor.Hook.Firewall.{issue, issue_all, issue_all-append}

module _ {O : Type 0} (wrap : GoError → GoError) (stop : Bool)
    (action : Rule → Exec O (Unit {0})) where
  -- `m` is the action on each of `rs` in order, with the treatment of errors that `stop` asks for.
  pub record Issues (m : Exec O (Unit {0})) (rs : List Rule) : Type 0 where
    pub at : (o : O) → m o ≡ issue_all wrap stop action rs o

  pub Issues-pure : Issues (pure tt) []
  unfolding issue_all
  Issues-pure = record { at = λ o. refl }

  continue-pure : (r : Result (Unit {0}) × O) → r ≡ continue r (λ _. pure tt)
  continue-pure (ok u, o) = refl
  continue-pure (err e, o) = refl
  continue-pure (fault x, o) = refl

  pub Issues-issue : (r : Rule) → Issues (issue wrap stop (action r)) (r ∷ [])
  unfolding issue_all
  Issues-issue r = record { at = λ o. continue-pure (issue wrap stop (action r) o) }

  pub Issues-seq :
      {m n : Exec O (Unit {0})} {xs ys : List Rule}
      → Issues m xs
      → Issues n ys
      → Issues (m >> n) (xs ++ ys)
  Issues-seq {m} {n} {xs} {ys} a b = record {
    at = λ o.
        ap (λ x. continue x (λ _. n)) (a.at o)
        ∙ continue-cong (issue_all wrap stop action xs o) _ _ (λ _ t. b.at t)
        ∙ sym (issue_all-append wrap stop action xs ys o);
  }

  pub Issues-if :
      (b : Bool) {m : Exec O (Unit {0})} {xs : List Rule}
      → Issues m xs
      → Issues (if b then m else pure tt) (if b then xs else [])
  Issues-if true a = a
  Issues-if false a = Issues-pure
