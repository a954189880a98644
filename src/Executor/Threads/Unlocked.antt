-- ===== src/Executor/Threads/Unlocked.antt =====
-- The end of a task with no health checker (executor/executor.go): nothing keeps the routines of
-- Executor/Threads apart.
use mathlib.Core.List.{Memᴰ}
use native.Mathlib.Decide.{ℕ_discrete}
use go_mesos_executor.Common.{◌≡◌, refl, ap, true, Option, none}
use go_mesos_executor.Common.Exec.{GoError}
use go_mesos_executor.Container.{Containerizer}
use go_mesos_executor.Hook.{Manager}
use go_mesos_executor.Executor.{Agent, Executor, Checker, wait_container, quit, quit_checker}
use go_mesos_executor.Executor.Loop.{without_goroutine}
use go_mesos_executor.Executor.Threads.{
  killing, ending, pre_stopping, within_routine, perform, Threads, kills, container_ends, calls,
  Run, stands, goes, quiet,
}

module _ {O : Type 0} (c : Containerizer O) (m : Manager O) (agent : Agent O) where
  -- With no health checker, and the goroutine that a launch started still waiting for the container:
  -- there is an interleaving in which one goroutine is in a kill and this one, whose container has
  -- ended with any exit code, is at its end, each of them before the stop hooks and past the health
  -- checker, so that the task is being torn down twice at once.
  pub Run-both :
      (e : Executor O) (x : Option GoError)
      → e.health_checker ≡ none
      → Memᴰ wait_container e.goroutines
      → (t : Threads O) × Run c m agent (quiet e) t
        × (t.place 0 ≡ within_routine killing pre_stopping)
        × (t.place 1 ≡ within_routine (ending x) pre_stopping)
        × (t.passed ≡ 2)
  unfolding perform quit_checker ℕ_discrete
  Run-both e x at waits =
      let e1 = without_goroutine wait_container e in
      let e2 = record e1 { is_shutdown = true } in
      let silent = ap (λ (h : Option Checker). quit h e2) at in
      (
        _,
        goes
            (goes
              (goes
                (goes (goes (goes stands (kills 0 refl)) (container_ends 1 x refl waits))
                  (calls 0 {e = e2} refl refl refl))
                (calls 1 {e = e2} refl refl refl))
              (calls 0 refl refl silent))
            (calls 1 refl refl silent),
        refl,
        refl,
        refl,
      )
