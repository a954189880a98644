-- ===== src/Health/Count.antt =====
-- When the checker of healthcheck/healthcheck.go gives a task up.
use go_mesos_executor.Common.{
  ℕ, zero, suc, ◌+◌, ◌^◌, ◌<◌, ◌≡◌, ◌∙◌, ap, true, false, List, [], ◌∷◌, ◌++◌, arith, if◌then◌else◌,
  replicate,
}
use go_mesos_executor.Health.{Watch, Input, tick, Message, changed, done, on_tick, is_done, watch}

-- One failed check past the grace period, below the limit.
pub on_tick-below :
    (limit : ℕ) (w : Watch)
    → w.grace_period_expired ≡ true
    → w.consecutive_failures + 1 < limit
    → limit < 2 ^ 32
    → on_tick limit w false
      ≡ (record w { consecutive_failures = w.consecutive_failures + 1 }, changed false)
unfolding on_tick
on_tick-below limit w g b h = ground arith

pub on_tick-at :
    (limit : ℕ) (w : Watch)
    → w.grace_period_expired ≡ true
    → w.consecutive_failures + 1 ≡ limit
    → limit < 2 ^ 32
    → on_tick limit w false ≡ (record w { consecutive_failures = limit; ticker_on = false }, done)
unfolding on_tick
on_tick-at limit w g b h = ground arith

-- What follows a tick.
abbrev proceed : ℕ → List Input → Watch × Message → Watch × List Message
proceed limit is y =
    let rest = watch limit y.0 is in if is_done y.1 then (y.0, y.1 ∷ []) else (rest.0, y.1 ∷ rest.1)

-- Past the grace period, with f failures counted so far and a limit of f + n + 1 below 2 ^ 32: of
-- further checks that all fail, the first n are told as unhealthy and the next one ends the watch,
-- with the limit reached and the ticker stopped, whatever ticks would follow.
pub watch-failures :
    (n : ℕ) (limit : ℕ) (w : Watch) (more : List Input)
    → w.grace_period_expired ≡ true
    → w.consecutive_failures + n + 1 ≡ limit
    → limit < 2 ^ 32
    → watch limit w (replicate n (tick false) ++ tick false ∷ more) ≡ (
      record w { consecutive_failures = limit; ticker_on = false },
      replicate n (changed false) ++ done ∷ [],
    )
unfolding watch
watch-failures zero limit w more g b h =
    ap (λ (y : Watch × Message). proceed limit more y) (on_tick-at limit w g (omega arith) h)
watch-failures (suc n) limit w more g b h =
    ap (λ (y : Watch × Message). proceed limit (replicate n (tick false) ++ tick false ∷ more) y)
      (on_tick-below limit w g (omega arith) h)
    ∙ ap (λ (r : Watch × List Message). (r.0, changed false ∷ r.1))
        (watch-failures n limit (record w { consecutive_failures = w.consecutive_failures + 1 })
          more g (omega arith) h)
