-- ===== src/Health/Race/Deadlock.antt =====
-- `Run` (healthcheck/healthcheck.go) and `healthCheck` (executor/executor.go), each waiting for the
-- other to receive.
use mathlib.Core.Path.{subst}
use go_mesos_executor.Common.{
  ℕ, zero, suc, ◌+◌, ◌-◌, ◌^◌, ◌≤◌, ◌<◌, ◌≡◌, refl, sym, ◌∙◌, Bool, true, false, arith,
}
use go_mesos_executor.Mesos.{CheckType}
use go_mesos_executor.Health.{changed, on_tick}
use go_mesos_executor.Health.Count.{on_tick-below, on_tick-at}
use go_mesos_executor.Health.Race.{
  At, selecting, sending, Listener, receiving, quitting, idle, Race, starts_at, beginning,
  start_race, Passes, ticks, grace_ends, takes_tick, checked, refuses, tells, tells_done,
  takes_quit, tells_exited, torn_down, kills, takes_main_quit, main_torn_down, Runs, stays, passes,
}

-- The checker sends on `Healthy` while its only receiver sends on `Quit`.
pub record Deadlock (s : Race) : Type 0 where
  pub health : Bool
  pub sends : s.checker ≡ sending (changed health)
  pub quits : s.listener ≡ quitting

Passes-Deadlock : {limit : ℕ} {s t : Race} → Passes limit s t → Deadlock s → Deadlock t
Passes-Deadlock (ticks _) d = record { health = d.health; sends = d.sends; quits = d.quits }
Passes-Deadlock grace_ends d = record { health = d.health; sends = d.sends; quits = d.quits }
Passes-Deadlock (takes_tick q _) d = absurd (cc (sym q ∙ d.sends))
Passes-Deadlock (checked _ q _) d = absurd (cc (sym q ∙ d.sends))
Passes-Deadlock (refuses q _) d = absurd (cc (sym q ∙ d.sends))
Passes-Deadlock (tells _ q) d = absurd (cc (sym q ∙ d.quits))
Passes-Deadlock (tells_done _ q) d = absurd (cc (sym q ∙ d.quits))
Passes-Deadlock (takes_quit q _) d = absurd (cc (sym q ∙ d.sends))
Passes-Deadlock (tells_exited q _) d = absurd (cc (sym q ∙ d.sends))
Passes-Deadlock (torn_down q) d = absurd (cc (sym q ∙ d.quits))
Passes-Deadlock (kills _) d = record { health = d.health; sends = d.sends; quits = d.quits }
Passes-Deadlock (takes_main_quit q _) d = absurd (cc (sym q ∙ d.sends))
Passes-Deadlock (main_torn_down _) d = record {
  health = d.health;
  sends = d.sends;
  quits = d.quits;
}

-- From a deadlock of the two goroutines, whatever runs leads to a deadlock of them.
Runs-Deadlock : {limit : ℕ} {s t : Race} → Runs limit s t → Deadlock s → Deadlock t
Runs-Deadlock stays d = d
Runs-Deadlock (passes r p) d = Passes-Deadlock p (Runs-Deadlock r d)

Runs-append : {limit : ℕ} {s t u : Race} → Runs limit s t → Runs limit t u → Runs limit s u
Runs-append r stays = r
Runs-append r (passes r' p) = passes (Runs-append r r') p

-- Both sides wait for the ticker past the grace period, with n failures counted and a tick there.
abbrev counted : ℕ → Bool → Race
counted n b = record {
  checker = selecting;
  listener = receiving;
  main_loop = idle;
  watched = record { consecutive_failures = n; grace_period_expired = true; ticker_on = true };
  buffered = b;
}

add_one : (n : ℕ) → n + 1 ≡ suc n
add_one n = omega arith

-- One more failed check below the limit.
Runs-counted :
    (limit n : ℕ)
    → n + 1 < limit
    → limit < 2 ^ 32
    → Runs limit (counted n true) (counted (n + 1) true)
Runs-counted limit n b h =
    passes
      (passes
        (passes (passes stays (takes_tick refl refl)) (
          checked false refl (
            on_tick-below limit
              (record { consecutive_failures = n; grace_period_expired = true; ticker_on = true })
              refl b h)))
        (tells {healthy = false} refl refl))
      (ticks refl)

Runs-count :
    (limit n : ℕ) → n < limit → limit < 2 ^ 32 → Runs limit (counted 0 true) (counted n true)
Runs-count limit zero b h = stays
Runs-count limit (suc n) b h = Runs-append (Runs-count limit n (omega arith) h) (
    subst (λ k. Runs limit (counted n true) (counted k true)) (add_one n)
      (Runs-counted limit n (omega arith) h))

-- The run to the deadlock, with one tick less than the limit behind it.
abbrev at_done : ℕ → At → Listener → Bool → Race
at_done limit a l b = record {
  checker = a;
  listener = l;
  main_loop = idle;
  watched = record { consecutive_failures = limit; grace_period_expired = true; ticker_on = false };
  buffered = b;
}

abbrev stuck_at : ℕ → Race
stuck_at limit = record (at_done limit (sending (changed true)) quitting false) {
  watched = record { consecutive_failures = 0; grace_period_expired = true; ticker_on = false };
}

Runs-last :
    (limit n : ℕ) → n + 1 ≡ limit → limit < 2 ^ 32 → Runs limit (counted n true) (stuck_at limit)
unfolding on_tick
Runs-last limit n q h =
    passes
      (passes
        (passes
          (passes (passes (passes stays (takes_tick refl refl)) (ticks refl)) (
            checked false refl (
              on_tick-at limit
                (record { consecutive_failures = n; grace_period_expired = true; ticker_on = true })
                refl q h)))
          (tells_done refl refl))
        (takes_tick refl refl))
      (checked true refl refl)

Runs-start :
    (limit : ℕ) (t : CheckType)
    → starts_at t ≡ selecting
    → Runs limit (start_race t) (counted 0 true)
unfolding start_race
Runs-start limit t q =
    subst (λ (a : At). Runs limit (beginning a) (counted 0 true)) (sym q)
      (passes (passes stays grace_ends) (ticks refl))

-- For a supported type of check and a limit of at least 1 failure, below 2 ^ 32, a deadlock can be
-- reached: the checker sends on `Healthy` while `healthCheck`, which would receive, sends on
-- `Quit`. From there every run keeps the two where they are: the teardown that the limit of failures
-- calls for never goes on.
pub start_race-Deadlock :
    (limit : ℕ) (t : CheckType)
    → starts_at t ≡ selecting
    → 1 ≤ limit
    → limit < 2 ^ 32
    → (s : Race) × Runs limit (start_race t) s
      × Deadlock s
      × ((u : Race) → Runs limit s u → Deadlock u)
start_race-Deadlock limit t q b h =
    let d : Deadlock (stuck_at limit) = record { health = true; sends = refl; quits = refl } in
    (
      stuck_at limit,
      Runs-append (Runs-start limit t q) (
          Runs-append (Runs-count limit (limit - 1) (omega arith) h)
            (Runs-last limit (limit - 1) (omega arith) h)),
      d,
      λ u r. Runs-Deadlock r d,
    )
