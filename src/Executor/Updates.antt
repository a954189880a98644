-- ===== src/Executor/Updates.antt =====
-- The table of updates that wait for an acknowledgment (executor/executor.go).
use mathlib.Core.List.{Mem, mem-cons}
use mathlib.Core.Logic.Or
use mathlib.Core.Path.{subst}
use go_mesos_executor.Common.{
  ◌≡◌, refl, ◌∙◌, String, Bool, true, false, ◌&&◌, inl, inr, Option, none, some, List, [], ◌∷◌, map,
  str_eq, arith, Bool-cases, if◌then◌else◌,
}
use go_mesos_executor.Common.Exec.{Result, ok, err, fault, continue}
use go_mesos_executor.Common.Table.{Table, lookup, insert, lookup-insert, lookup-erase}
use go_mesos_executor.Container.{Containerizer}
use go_mesos_executor.Hook.{Manager}
use go_mesos_executor.Mesos.{TaskStatus, update}
use go_mesos_executor.Executor.{Agent, Executor, update_status, outside}
use go_mesos_executor.Executor.Handlers.{handle_acknowledged, get_unacked_updates}

-- The update that waits under a UUID.
abbrev pub pending : {O : Type 0} → Executor O → String → Option TaskStatus
pending e k = lookup k e.unacked_updates

lookup-mem :
    {V : Type 0} (k : String) (t : Table V) (v : V) → lookup k t ≡ some v → Mem v (map (λ x. x.1) t)
unfolding lookup
lookup-mem k [] v h = absurd (cc h)
lookup-mem k ((j, w) ∷ t) v h = elim (Bool-cases (str_eq j k)) [
  | inl same ↦ mem-cons.1 (Or.inl (ground arith))
  | inr differ ↦ mem-cons.1 (Or.inr (lookup-mem k t v (rw differ at h)))
]

abbrev pub is_ok : {A : Type 0} → Result A → Bool
is_ok (ok a) = true
is_ok (err x) = false
is_ok (fault x) = false

module _ {O : Type 0} (agent : Agent O) where
  recorded :
      (status : TaskStatus) (r : Result (Unit {0}) × Executor O) (j : String)
      → let u = continue r (λ _ e.
        (ok tt, record e { unacked_updates = insert status.uuid status e.unacked_updates })) in
        pending u.1 j ≡ (if is_ok u.0 && str_eq status.uuid j then some status else pending r.1 j)
  recorded status (ok u, e) j = lookup-insert status.uuid j status e.unacked_updates
  recorded status (err x, e) j = refl
  recorded status (fault x, e) j = refl

  -- An update that the agent took stands in the table under its own UUID, and no other entry
  -- changes; after an update whose call failed, or did not return, the table is as before.
  pub update_status-pending :
      (status : TaskStatus) (e e' : Executor O) (r : Result (Unit {0})) (j : String)
      → update_status agent status e ≡ (r, e')
      → pending e' j ≡ (if is_ok r && str_eq status.uuid j then some status else pending e j)
  unfolding update_status
  update_status-pending status e e' r j did =
      subst
        (λ (u : Result (Unit {0}) × Executor O).
          pending u.1 j ≡ (if is_ok u.0 && str_eq status.uuid j then some status else pending e j))
        did
        (recorded status (outside (agent.do_call (update status e.executor_id e.framework_id)) e) j)

module _ {O : Type 0} (c : Containerizer O) (m : Manager O) (agent : Agent O) where
  -- An acknowledgment removes the update of its UUID and no other: an update that the agent took
  -- and then acknowledged is gone, and what else was pending before it still is.
  pub handle_acknowledged-update_status :
      (status : TaskStatus) (e e' : Executor O) (j : String)
      → update_status agent status e ≡ (ok tt, e')
      → pending (handle_acknowledged c m agent status.uuid e').1 j
        ≡ (if str_eq status.uuid j then none else pending e j)
  unfolding handle_acknowledged
  handle_acknowledged-update_status status e e' j did =
      lookup-erase status.uuid j e'.unacked_updates
      ∙ ground (arith, update_status-pending agent status e e' (ok tt) j did)

  -- Each pending update is among those that a subscription sends again.
  pub get_unacked_updates-mem :
      (e : Executor O) (k : String) (status : TaskStatus)
      → pending e k ≡ some status
      → (l : List TaskStatus) × (get_unacked_updates c m agent e ≡ (ok l, e)) × Mem status l
  unfolding get_unacked_updates
  get_unacked_updates-mem e k status h =
      (map (λ x. x.1) e.unacked_updates, refl, lookup-mem k e.unacked_updates status h)
