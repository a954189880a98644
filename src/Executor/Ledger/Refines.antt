-- ===== src/Executor/Ledger/Refines.antt =====
-- The executor's table (executor/executor.go) against the abstract ledger, in every interleaving of
-- the main loop with the other goroutines.
use mathlib.Core.Path.{subst, fun_ext}
use go_mesos_executor.Common.{◌≡◌, refl, sym, String, some}
use go_mesos_executor.Common.Exec.{ok}
use go_mesos_executor.Common.Table.{lookup-insert, lookup-erase, lookup}
use go_mesos_executor.Container.{Containerizer}
use go_mesos_executor.Hook.{Manager}
use go_mesos_executor.Mesos.{TaskStatus, update, acknowledged}
use go_mesos_executor.Executor.{Agent, Config, Executor, new_executor}
use go_mesos_executor.Executor.Ledger.{Ledger, put, Moves, stays, puts, forgets}
use go_mesos_executor.Executor.Ledger.Laws.{Moves-IsOwn}
use go_mesos_executor.Executor.Loop.{Phase, subscribing, Reach}
use go_mesos_executor.Executor.Loop.Stable.{Stable}
use go_mesos_executor.Executor.Loop.Stable.Steps.{Reach-Keeps}
use go_mesos_executor.Executor.Updates.{pending}

module _ {O : Type 0} (agent : Agent O) where
  -- The agent took the update of this status, sent for this executor and this framework.
  abbrev pub Took : String → String → TaskStatus → Type 0
  Took executor_id framework_id status =
      (o : O) × (o' : O) × (agent.do_call (update status executor_id framework_id) o ≡ (ok tt, o'))

  -- The agent sent an acknowledgment of this UUID.
  abbrev pub Acked : String → Type 0
  Acked uuid = (o : O) × (o' : O) × (agent.decode o ≡ (ok (acknowledged uuid), o'))

module _ {O : Type 0} (c : Containerizer O) (m : Manager O) (agent : Agent O) where
  module _ (start : Executor O) where
    abbrev pub Moved : Ledger → Type 0
    Moved = Moves (Took agent start.executor_id start.framework_id) (Acked agent) (pending start)

    abbrev Refines : Executor O → Type 0
    Refines e =
        Moved (pending e)
        × (e.executor_id ≡ start.executor_id)
        × (e.framework_id ≡ start.framework_id)

    reported :
        (e : Executor O) (status : TaskStatus) (o o' : O)
        → agent.do_call (update status e.executor_id e.framework_id) o ≡ (ok tt, o')
        → Refines e
        → Moved (put status (pending e))
    reported e status o o' eq (moves, x, f) =
        puts status
          (
            o,
            o',
            subst (λ y. agent.do_call (update status y start.framework_id) o ≡ (ok tt, o')) x
                (subst (λ y. agent.do_call (update status e.executor_id y) o ≡ (ok tt, o')) f eq),
          )
          moves

    Refines-Stable : Stable agent Refines
    Refines-Stable = record {
      sharing = λ e s h. h;
      checking = λ e k h. h;
      naming = λ e id h. h;
      starting = λ e l h. h;
      stopping = λ e h. h;
      subscribing_as = λ e a x h. h;
      reporting = λ e status o o' eq h. (
        subst Moved (sym (fun_ext λ k. lookup-insert status.uuid k status e.unacked_updates))
            (reported e status o o' eq h),
        h.1,
        h.2,
      );
      forgetting = λ e uuid o o' eq h. (
        subst Moved (sym (fun_ext λ k. lookup-erase uuid k e.unacked_updates))
            (forgets uuid (o, o', eq) h.0),
        h.1,
        h.2,
      );
    }

    -- In every interleaving of the main loop with the other goroutines, the table of updates that
    -- wait for an acknowledgment is an abstract ledger: from any state, it has moved by puts of
    -- updates that the agent took, each under its own UUID and sent for the executor's own id and
    -- framework, and by the removal of UUIDs that the agent acknowledged, and by nothing else.
    pub Reach-Moves :
        {p : Phase} {t : Phase × Executor O}
        → Reach c m agent (p, start) t
        → Moves
            (Took agent start.executor_id start.framework_id)
            (Acked agent)
            (pending start)
            (pending t.1)
    Reach-Moves r = (Reach-Keeps c m agent Refines-Stable r (stays, refl, refl)).0

  -- In every interleaving from the start of the program, an update that waits for an acknowledgment
  -- stands under its own UUID, and the agent took it, sent for the executor and the framework of the
  -- configuration.
  pub Reach-pending :
      (config : Config) (o : O) {t : Phase × Executor O} (k : String) (status : TaskStatus)
      → Reach c m agent (subscribing, new_executor config o) t
      → pending t.1 k ≡ some status
      → (status.uuid ≡ k) × Took agent config.executor_id config.framework_id status
  unfolding new_executor lookup
  Reach-pending config o k status r =
      Moves-IsOwn _ (Acked agent) (Reach-Moves (new_executor config o) r) (λ j s p. absurd (cc p)) k
        status
