-- ===== src/Tests/Checking.antt =====
-- Runs of the health checker.
use go_mesos_executor.Common.{
  List, some, none, ◌↔◌, ◌*◌, ◌^◌, ◌<◌, ◌≤◌, ◌⊎◌, ◌≡◌, refl, true, false, [], ◌∷◌, ◌++◌, arith,
  replicate,
}
use go_mesos_executor.Common.Exec.{fault, panic}
use go_mesos_executor.Health.Interval.{new_ticker-fault}
use go_mesos_executor.Mesos.{Float64, HealthCheck, http_check, unknown_check}
use go_mesos_executor.Health.{new_ticker, Input, Watch, tick, changed, done, fresh, watch, on_tick}
use go_mesos_executor.Health.Count.{watch-failures}
use go_mesos_executor.Health.Giveup.{Somewhere, watch-HasDone}
use go_mesos_executor.Health.Race.{
  Race, Runs, starts_at, start_race, stays, passes, refuses, kills, stopped, quitting_main,
}
use go_mesos_executor.Health.Race.Deadlock.{Deadlock, start_race-Deadlock}
use go_mesos_executor.Health.Race.Unsupported.{Untold, Runs-Untold}

abbrev late : Watch
late = record fresh { grace_period_expired = true }

watch-failures_example : watch 3 late (replicate 2 (tick false) ++ tick false ∷ tick true ∷ []) ≡ (
  record late { consecutive_failures = 3; ticker_on = false },
  replicate 2 (changed false) ++ done ∷ [],
)
watch-failures_example = watch-failures 2 3 late (tick true ∷ []) refl refl (omega arith)

start_race-Deadlock_example :
    (s : Race) × Runs 3 (start_race http_check) s
    × Deadlock s
    × ((u : Race) → Runs 3 s u → Deadlock u)
unfolding starts_at
start_race-Deadlock_example = start_race-Deadlock 3 http_check refl (omega arith) (omega arith)

abbrev refused : Race
refused = record (start_race unknown_check) { checker = stopped; main_loop = quitting_main }

Runs-Untold_example : Untold refused
unfolding start_race starts_at
Runs-Untold_example =
    Runs-Untold {limit = 3} {s = refused} (passes (passes stays (refuses refl refl)) (kills refl))

-- A healthy check ends the grace period, then two fail.
abbrev failing : List Input
failing = tick true ∷ tick false ∷ tick false ∷ []

watch-HasDone_example : Somewhere 2 failing
unfolding watch on_tick
watch-HasDone_example = watch-HasDone 2 failing (omega arith) (omega arith) tt

-- Half a second.
abbrev half : Float64
half = record { mantissa = 1; up = 0; down = 1 }

abbrev often : HealthCheck
often = record {
  check_type = some http_check;
  interval_seconds = some half;
  consecutive_failures = none;
  command = none;
  http = none;
  tcp_port = none;
}

new_ticker-fault_example :
    (new_ticker often ≡ fault (panic "non-positive interval for NewTicker"))
    ↔ (1 * 2 ^ 0 < 1 * 2 ^ 1) ⊎ (9223372037 * 2 ^ 1 ≤ 1 * 2 ^ 0)
new_ticker-fault_example = new_ticker-fault often half refl (omega arith)
