-- ===== src/Executor/Loop/Shutdown.antt =====
-- The flag `Shutdown` (executor/executor.go) through the steps of all goroutines.
use go_mesos_executor.Common.{◌≡◌, refl, true}
use go_mesos_executor.Container.{Containerizer}
use go_mesos_executor.Hook.{Manager}
use go_mesos_executor.Executor.{Agent, Executor}
use go_mesos_executor.Executor.Handlers.{handle_kill}
use go_mesos_executor.Executor.Loop.{Phase, Step}
use go_mesos_executor.Executor.Loop.Stable.{Stable, killed-Keeps}
use go_mesos_executor.Executor.Loop.Stable.Steps.{Step-Keeps}

abbrev pub IsShutdown : {O : Type 0} → Executor O → Type 0
IsShutdown e = e.is_shutdown ≡ true

module _ {O : Type 0} (c : Containerizer O) (m : Manager O) (agent : Agent O) where
  IsShutdown-Stable : Stable agent IsShutdown
  IsShutdown-Stable = record {
    sharing = λ e s h. h;
    checking = λ e k h. h;
    naming = λ e id h. h;
    starting = λ e l h. h;
    stopping = λ e h. refl;
    subscribing_as = λ e a x h. h;
    reporting = λ e status o o' eq h. h;
    forgetting = λ e uuid o o' eq h. h;
  }

  -- A kill sets the flag, also where it fails or does not come back.
  pub handle_kill-IsShutdown : (e : Executor O) → IsShutdown (handle_kill c m agent e).1
  handle_kill-IsShutdown e = killed-Keeps c m agent IsShutdown-Stable e refl

  -- Once set, the flag stays set through every step of the main loop and of the other goroutines.
  pub Step-IsShutdown :
      {s t : Phase × Executor O} → Step c m agent s t → IsShutdown s.1 → IsShutdown t.1
  Step-IsShutdown = Step-Keeps c m agent IsShutdown-Stable
