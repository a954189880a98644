-- ===== src/Hook/Firewall.antt =====
-- What hook/acl.go and hook/iptables.go share: rules are handed one by one to an action of the
-- iptables driver, and an error of the action ends the work or is passed over.
pub mod Teardown
pub mod Issues
use go_mesos_executor.Common.{
  ◌⊎◌, ◌≡◌, refl, sym, ◌∙◌, Bool, true, false, List, [], ◌∷◌, ◌++◌, arith, if◌then◌else◌,
}
use go_mesos_executor.Common.Exec.{
  GoError, Result, Exec, ok, err, fault, pure, raise, settle, continue, ◌>>◌, NoError,
  continue-cong, continue_assoc, NoError-continue,
}
use go_mesos_executor.Mesos.{Network, bridge, user}
use go_mesos_executor.Outside.{Rule}

-- The networks on which both hooks work.
abbrev pub IsManaged : Network → Type 0
IsManaged n = (n ≡ bridge) ⊎ (n ≡ user)

module _ {O : Type 0} (wrap : GoError → GoError) where
  -- `err = action(…); if err != nil && stopOnError { return wrap(err) }`
  unfoldable pub issue : Bool → Exec O (Unit {0}) → Exec O (Unit {0})
  issue stop m s = settle (m s) (λ e. if stop then raise (wrap e) else pure tt) pure

  -- The action on each rule of a list, in order.
  unfoldable pub issue_all : Bool → (Rule → Exec O (Unit {0})) → List Rule → Exec O (Unit {0})
  unfolding issue
  issue_all stop action [] = pure tt
  issue_all stop action (r ∷ rs) = issue stop (action r) >> issue_all stop action rs

  pub issue_all-append :
      (stop : Bool) (action : Rule → Exec O (Unit {0})) (xs ys : List Rule) (o : O)
      → issue_all stop action (xs ++ ys) o
        ≡ (issue_all stop action xs >> issue_all stop action ys) o
  unfolding issue_all
  issue_all-append stop action [] ys o = refl
  issue_all-append stop action (x ∷ xs) ys o =
      continue-cong (issue stop (action x) o) _ _ (λ _ t. issue_all-append stop action xs ys t)
      ∙ sym (continue_assoc (issue stop (action x) o) _ _)

  issue-NoError : (m : Exec O (Unit {0})) (o : O) → NoError (issue false m o).0
  unfolding issue
  issue-NoError m o = settled (m o)
    where
      settled : (r : Result (Unit {0}) × O) → NoError (settle r (λ _. pure tt) pure).0
      settled (ok u, t) = tt
      settled (err e, t) = tt
      settled (fault x, t) = tt

  -- Where errors are passed over, none comes back.
  pub issue_all-NoError :
      (action : Rule → Exec O (Unit {0})) (rs : List Rule) (o : O)
      → NoError (issue_all false action rs o).0
  unfolding issue_all
  issue_all-NoError action [] o = tt
  issue_all-NoError action (r ∷ rs) o =
      NoError-continue (issue false (action r) o) _ (issue-NoError (action r) o)
        (λ _ t. issue_all-NoError action rs t)
