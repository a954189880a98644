-- ===== src/Executor/Loop/FailedLaunch.antt =====
-- A launch that fails, as `Execute` goes on behind it (executor/executor.go).
use go_mesos_executor.Common.{◌≡◌, true, Option, none, some}
use go_mesos_executor.Common.Exec.{GoError, blocked, Result, ok, fault}
use go_mesos_executor.Container.{Containerizer}
use go_mesos_executor.Hook.{Manager}
use go_mesos_executor.Mesos.{task_killed}
use go_mesos_executor.Executor.{Agent, Executor, Checker}
use go_mesos_executor.Executor.Loop.{Phase, finished}
use go_mesos_executor.Executor.Obliging.{Closed}

module _ {O : Type 0} (c : Containerizer O) (m : Manager O) (agent : Agent O) where
  -- What the step of a launch that failed comes to, by the checker that the launch left.
  abbrev pub FailsTo : GoError → Executor O → Option Checker → Result Phase × Executor O → Type 0
  FailsTo x e' none r =
      (e2 : Executor O) × (r ≡ (ok (finished (some x)), e2))
      × Closed c m task_killed none (record e' { is_shutdown = true }) e2
  FailsTo x e' (some k) r = r ≡ (fault (blocked "Quit"), record e' { is_shutdown = true })
