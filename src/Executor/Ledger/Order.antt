-- ===== src/Executor/Ledger/Order.antt =====
-- What a subscription sends again (executor/executor.go, `getUnackedUpdates`), up to its order: Go
-- lists a map in any order.
use mathlib.Core.List.{Perm}
use go_mesos_executor.Common.{◌≡◌, refl, sym, ◌∙◌, ap, String, Option, none, some, List, ◌∷◌}
use go_mesos_executor.Common.Exec.{Result, ok}
use go_mesos_executor.Common.Table.{Table, lookup, erase}
use go_mesos_executor.Common.Table.Order.{
  Unique, values, erase-none, values-erase, erase-Unique, insert-Unique,
}
use go_mesos_executor.Container.{Containerizer}
use go_mesos_executor.Hook.{Manager}
use go_mesos_executor.Mesos.{TaskStatus}
use go_mesos_executor.Executor.{Agent, Config, Executor, new_executor}
use go_mesos_executor.Executor.Handlers.{handle_acknowledged, get_unacked_updates}
use go_mesos_executor.Executor.Loop.{Phase, subscribing, Reach}
use go_mesos_executor.Executor.Loop.Stable.{Stable}
use go_mesos_executor.Executor.Loop.Stable.Steps.{Reach-Keeps}
use go_mesos_executor.Executor.Updates.{pending}
use mathlib.Core.Path.{subst₂}

module _ {O : Type 0} (c : Containerizer O) (m : Manager O) (agent : Agent O) where
  abbrev Once : Executor O → Type 0
  Once e = Unique e.unacked_updates

  Once-Stable : Stable agent Once
  Once-Stable = record {
    sharing = λ e s h. h;
    checking = λ e k h. h;
    naming = λ e id h. h;
    starting = λ e l h. h;
    stopping = λ e h. h;
    subscribing_as = λ e a x h. h;
    reporting = λ e status o o' eq h. insert-Unique status.uuid status e.unacked_updates h;
    forgetting = λ e uuid o o' eq h. erase-Unique uuid e.unacked_updates h;
  }

  Reach-Once :
      (config : Config) (o : O) {t : Phase × Executor O}
      → Reach c m agent (subscribing, new_executor config o) t
      → Once t.1
  unfolding new_executor
  Reach-Once config o r = Reach-Keeps c m agent Once-Stable r tt

  listed :
      (e : Executor O) (l : List TaskStatus)
      → get_unacked_updates c m agent e ≡ (ok l, e)
      → values e.unacked_updates ≡ l
  unfolding get_unacked_updates
  listed e l p = cc p

  -- The updates that are sent again, before and after an acknowledgment, by the update that waited.
  abbrev pub Dropped : Option TaskStatus → List TaskStatus → List TaskStatus → Type 0
  Dropped none l l' = l ≡ l'
  Dropped (some status) l l' = Perm l (status ∷ l')

  erase-Dropped :
      (k : String) (t : Table TaskStatus) (o : Option TaskStatus)
      → Unique t
      → lookup k t ≡ o
      → Dropped o (values t) (values (erase k t))
  erase-Dropped k t none u h = ap values (sym (erase-none k t h))
  erase-Dropped k t (some status) u h = values-erase k status t u h

  -- In every interleaving from the start of the program, an acknowledgment takes the update that
  -- waits under its UUID, once, out of the updates that a subscription would send again, and no
  -- other, up to their order; if none waits under this UUID, the same are sent again.
  pub handle_acknowledged-Dropped :
      (config : Config) (o : O) {t : Phase × Executor O} (k : String) (l l' : List TaskStatus)
      (e : Executor O)
      → Reach c m agent (subscribing, new_executor config o) t
      → get_unacked_updates c m agent t.1 ≡ (ok l, t.1)
      → handle_acknowledged c m agent k t.1 ≡ (ok tt, e)
      → get_unacked_updates c m agent e ≡ (ok l', e)
      → Dropped (pending t.1 k) l l'
  unfolding handle_acknowledged
  handle_acknowledged-Dropped config o {t} k l l' e r before acked after =
      let table : erase k t.1.unacked_updates ≡ e.unacked_updates =
        ap (λ (x : Result (Unit {0}) × Executor O). x.1.unacked_updates) acked in
      subst₂ (Dropped (pending t.1 k)) (listed t.1 l before) (ap values table ∙ listed e l' after)
        (erase-Dropped k t.1.unacked_updates (pending t.1 k) (Reach-Once config o r) refl)
