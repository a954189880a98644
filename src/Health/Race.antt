-- ===== src/Health/Race.antt =====
-- The goroutine of `Run` (healthcheck/healthcheck.go) beside the goroutines that it shares channels
-- with: `healthCheck`, and the main loop, which sends on `Quit` when it tears the task down
-- (executor/executor.go). The channels have no buffer: a message passes when both sides are there.
-- The channel of a ticker holds one tick, and stopping the ticker leaves the tick in it.
pub mod Deadlock
pub mod Unsupported
use mathlib.Core.Path.{subst}
use go_mesos_executor.Common.{
  ℕ, zero, suc, ◌+◌, ◌-◌, ◌^◌, ◌≤◌, ◌<◌, ◌≡◌, ◌≢◌, refl, sym, ◌∙◌, Bool, true, false, ◌⊎◌, inl, inr,
  arith,
}
use go_mesos_executor.Mesos.{CheckType, unknown_check, command_check, http_check, tcp_check}
use go_mesos_executor.Health.{Watch, Message, changed, done, fresh, on_tick}
use go_mesos_executor.Health.Count.{on_tick-below, on_tick-at}

-- Where `Run` is. `refusing` sends the one message for an unsupported type.
pub data At : Type 0 where
  refusing selecting checking : At
  sending : Message → At
  sending_exited stopped : At

-- Where `healthCheck` is; `quitting` sends on `Quit`, `tearing` is in the teardown past that.
pub data Listener : Type 0 where
  receiving quitting tearing over : Listener

-- Where the main loop is.
pub data Main : Type 0 where
  idle quitting_main tearing_main : Main

pub record Race : Type 0 where
  pub checker : At
  pub listener : Listener
  pub main_loop : Main
  pub watched : Watch
  pub buffered : Bool  -- a tick is in the channel of the ticker

unfoldable pub starts_at : CheckType → At
starts_at unknown_check = refusing
starts_at command_check = selecting
starts_at http_check = selecting
starts_at tcp_check = selecting

abbrev beginning : At → Race
beginning a = record {
  checker = a;
  listener = receiving;
  main_loop = idle;
  watched = fresh;
  buffered = false;
}

unfoldable pub start_race : CheckType → Race
start_race t = beginning (starts_at t)

pub data Passes (limit : ℕ) : Race → Race → Type 0 where
  ticks : {s : Race} → s.watched.ticker_on ≡ true → Passes limit s (record s { buffered = true })
  grace_ends :
      {s : Race}
      → Passes limit s (record s { watched = record s.watched { grace_period_expired = true } })
  takes_tick :
      {s : Race}
      → s.checker ≡ selecting
      → s.buffered ≡ true
      → Passes limit s (record s { checker = checking; buffered = false })
  checked :
      {s : Race} {w : Watch} {message : Message} (healthy : Bool)
      → s.checker ≡ checking
      → on_tick limit s.watched healthy ≡ (w, message)
      → Passes limit s (record s { checker = sending message; watched = w })
  refuses :
      {s : Race}
      → s.checker ≡ refusing
      → s.listener ≡ receiving
      → Passes limit s (record s { checker = stopped })
  tells :
      {s : Race} {healthy : Bool}
      → s.checker ≡ sending (changed healthy)
      → s.listener ≡ receiving
      → Passes limit s (record s { checker = selecting })
  tells_done :
      {s : Race}
      → s.checker ≡ sending done
      → s.listener ≡ receiving
      → Passes limit s (record s { checker = selecting; listener = quitting })
  takes_quit :
      {s : Race}
      → s.checker ≡ selecting
      → s.listener ≡ quitting
      → Passes limit s (record s { checker = sending_exited; listener = tearing })
  tells_exited :
      {s : Race}
      → s.checker ≡ sending_exited
      → s.listener ≡ receiving
      → Passes limit s (record s { checker = stopped; listener = over })
  torn_down : {s : Race} → s.listener ≡ tearing → Passes limit s (record s { listener = over })
  kills : {s : Race} → s.main_loop ≡ idle → Passes limit s (record s { main_loop = quitting_main })
  takes_main_quit :
      {s : Race}
      → s.checker ≡ selecting
      → s.main_loop ≡ quitting_main
      → Passes limit s (record s { checker = sending_exited; main_loop = tearing_main })
  main_torn_down :
      {s : Race} → s.main_loop ≡ tearing_main → Passes limit s (record s { main_loop = idle })

pub data Runs (limit : ℕ) (s : Race) : Race → Type 0 where
  stays : Runs limit s s
  passes : {t u : Race} → Runs limit s t → Passes limit t u → Runs limit s u
