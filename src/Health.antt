-- ===== src/Health.antt =====
-- healthcheck/healthcheck.go: the checker's loop. What it waits for comes in as a list of inputs,
-- in the order in which the loop and the timer of the grace period meet them; what it sends on its
-- channels comes out as messages. Waiting times are left out.
pub mod Count
pub mod Race
pub mod Check
pub mod Giveup
pub mod Interval
use go_mesos_executor.Common.{
  ℕ, ◌+◌, ◌*◌, ◌%◌, ◌^◌, Bool, true, false, Option, none, some, List, [], ◌∷◌, ◌++◌, ◌==◌,
  if◌then◌else◌,
}
use go_mesos_executor.Common.Exec.{Result, ok, fault, panic}
use go_mesos_executor.Common.Int.{ℤ, pos, ltb_ℤ, to_int64}
use go_mesos_executor.Mesos.{
  Float64, truncate, HealthCheck, CheckType, unknown_check, command_check, http_check, tcp_check,
  or_default,
}

-- The default of the protocol: 10 seconds, and 3 failures.
abbrev pub default_interval : Float64
default_interval = record { mantissa = 10; up = 0; down = 0 }

abbrev pub get_consecutive_failures : HealthCheck → ℕ
get_consecutive_failures h = or_default 3 h.consecutive_failures

abbrev pub get_type : HealthCheck → CheckType
get_type h = or_default unknown_check h.check_type

-- The fields of `Checker` and the local variables that the loop changes.
pub record Watch : Type 0 where
  pub consecutive_failures : ℕ  -- uint32
  pub grace_period_expired : Bool
  pub ticker_on : Bool

-- A tick with the result of its check; or the end of the grace period.
pub data Input : Type 0 where
  tick : Bool → Input
  grace_over : Input

-- What goes out on `Healthy` and on `Done`.
pub data Message : Type 0 where
  changed : Bool → Message
  done : Message

abbrev pub u32 : ℕ → ℕ
u32 n = n % 2 ^ 32

abbrev pub fresh : Watch
fresh = record { consecutive_failures = 0; grace_period_expired = false; ticker_on = true }

-- A `time.Duration` is an int64 of nanoseconds, and the product by `time.Second` wraps around.
abbrev pub seconds : ℕ → ℤ
seconds n = to_int64 (n * 1000000000 % 2 ^ 64)

-- `time.NewTicker` panics on an interval that is not positive. The seconds lose their fraction
-- in the conversion to a `time.Duration`.
unfoldable pub new_ticker : HealthCheck → Result Watch
new_ticker h =
    if ltb_ℤ (pos 0) (seconds (truncate (or_default default_interval h.interval_seconds)))
    then ok fresh
    else fault (panic "non-positive interval for NewTicker")

-- The `switch` of `Run`: an unsupported type is told as unhealthy, and `Run` returns.
unfoldable pub select_check : CheckType → Option (List Message)
select_check http_check = none
select_check tcp_check = none
select_check command_check = none
select_check unknown_check = some (changed false ∷ [])

-- A failed check past the grace period.
count_failure : ℕ → Watch → Watch × Message
count_failure limit w =
    let n = u32 (w.consecutive_failures + 1) in
    if n == limit
    then (record w { consecutive_failures = n; ticker_on = false }, done)
    else (record w { consecutive_failures = n }, changed false)

-- The body of the loop for a tick whose check gave `healthy`.
unfoldable pub on_tick : ℕ → Watch → Bool → Watch × Message
unfolding count_failure
on_tick limit w true =
    (record w { consecutive_failures = 0; grace_period_expired = true }, changed true)
on_tick limit w false = if w.grace_period_expired then count_failure limit w else (w, changed false)

abbrev pub is_done : Message → Bool
is_done done = true
is_done (changed _) = false

-- The loop, up to its `Done`: the state and the messages.
unfoldable pub watch : ℕ → Watch → List Input → Watch × List Message
unfolding on_tick
watch limit w [] = (w, [])
watch limit w (grace_over ∷ is) = watch limit (record w { grace_period_expired = true }) is
watch limit w (tick healthy ∷ is) =
    let (w', message) = on_tick limit w healthy in
    let rest = watch limit w' is in
    if is_done message then (w', message ∷ []) else (rest.0, message ∷ rest.1)
