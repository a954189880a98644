-- ===== src/Executor/Ledger/Laws.antt =====
-- Laws of the abstract ledger alone (executor/executor.go, `UnackedUpdates`).
use go_mesos_executor.Common.{
  ◌≡◌, refl, String, Bool, true, false, Option, none, some, str_eq, if◌then◌else◌,
}
use mathlib.Core.Path.{subst}
use go_mesos_executor.Mesos.{TaskStatus}
use go_mesos_executor.Executor.Ledger.{Ledger, put, forget, Moves, stays, puts, forgets}
use text.Mathlib.TextEquality.{eq_iff}

module _ (Took : TaskStatus → Type 0) (Acked : String → Type 0) where
  -- Each entry stands under its own UUID, and the agent took it.
  abbrev pub IsOwn : Ledger → Type 0
  IsOwn l = (k : String) (s : TaskStatus) → l k ≡ some s → (s.uuid ≡ k) × Took s

  if-own :
      (b : Bool) (status : TaskStatus) (o : Option TaskStatus) (k : String) (s : TaskStatus)
      → (b ≡ true → (status.uuid ≡ k) × Took status)
      → (o ≡ some s → (s.uuid ≡ k) × Took s)
      → (if b then some status else o) ≡ some s
      → (s.uuid ≡ k) × Took s
  if-own true status o k s h i p = subst (λ (x : TaskStatus). (x.uuid ≡ k) × Took x) (cc p) (h refl)
  if-own false status o k s h i p = i p

  put-IsOwn : (status : TaskStatus) (l : Ledger) → Took status → IsOwn l → IsOwn (put status l)
  put-IsOwn status l t h k s p =
      if-own (str_eq status.uuid k) status (l k) k s (λ q. ((eq_iff status.uuid k).0 q, t)) (h k s)
        p

  if-forgotten :
      (b : Bool) (o : Option TaskStatus) {s : TaskStatus}
      → (if b then none else o) ≡ some s
      → o ≡ some s
  if-forgotten true o p = absurd (cc p)
  if-forgotten false o p = p

  forget-IsOwn : (uuid : String) (l : Ledger) → IsOwn l → IsOwn (forget uuid l)
  forget-IsOwn uuid l h k s p = h k s (if-forgotten (str_eq uuid k) (l k) p)

  pub Moves-IsOwn : {l l' : Ledger} → Moves Took Acked l l' → IsOwn l → IsOwn l'
  Moves-IsOwn stays h = h
  Moves-IsOwn (puts {l'} status t m) h = put-IsOwn status l' t (Moves-IsOwn m h)
  Moves-IsOwn (forgets {l'} uuid a m) h = forget-IsOwn uuid l' (Moves-IsOwn m h)
