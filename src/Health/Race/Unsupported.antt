-- ===== src/Health/Race/Unsupported.antt =====
-- A task whose type of check is not supported (healthcheck/healthcheck.go), and its teardown.
use go_mesos_executor.Common.{ℕ, ◌≡◌, ◌≢◌, refl, sym, ◌∙◌, ◌⊎◌, inl, inr}
use go_mesos_executor.Mesos.{unknown_check}
use go_mesos_executor.Health.Race.{
  At, refusing, stopped, receiving, tearing_main, Race, starts_at, start_race, Passes, ticks,
  grace_ends, takes_tick, checked, refuses, tells, tells_done, takes_quit, tells_exited, torn_down,
  kills, takes_main_quit, main_torn_down, Runs, stays, passes,
}

-- What an unsupported type leaves possible: nobody has got past sending on `Quit`.
pub record Untold (s : Race) : Type 0 where
  pub at : (s.checker ≡ refusing) ⊎ (s.checker ≡ stopped)
  pub hears : s.listener ≡ receiving
  pub untorn : s.main_loop ≢ tearing_main

elsewhere : {a b : At} → (a ≡ refusing) ⊎ (a ≡ stopped) → a ≡ b → refusing ≢ b → stopped ≢ b → ⊥
elsewhere (inl r) q x y = x (sym r ∙ q)
elsewhere (inr r) q x y = y (sym r ∙ q)

Passes-Untold : {limit : ℕ} {s t : Race} → Passes limit s t → Untold s → Untold t
Passes-Untold (ticks _) d = record { at = d.at; hears = d.hears; untorn = d.untorn }
Passes-Untold grace_ends d = record { at = d.at; hears = d.hears; untorn = d.untorn }
Passes-Untold (takes_tick q _) d = absurd (elsewhere d.at q (λ r. cc) (λ r. cc))
Passes-Untold (checked _ q _) d = absurd (elsewhere d.at q (λ r. cc) (λ r. cc))
Passes-Untold (refuses q _) d = record { at = inr refl; hears = d.hears; untorn = d.untorn }
Passes-Untold (tells q _) d = absurd (elsewhere d.at q (λ r. cc) (λ r. cc))
Passes-Untold (tells_done q _) d = absurd (elsewhere d.at q (λ r. cc) (λ r. cc))
Passes-Untold (takes_quit q _) d = absurd (elsewhere d.at q (λ r. cc) (λ r. cc))
Passes-Untold (tells_exited q _) d = absurd (elsewhere d.at q (λ r. cc) (λ r. cc))
Passes-Untold (torn_down q) d = absurd (cc (sym q ∙ d.hears))
Passes-Untold (kills _) d = record { at = d.at; hears = d.hears; untorn = λ r. cc }
Passes-Untold (takes_main_quit q _) d = absurd (elsewhere d.at q (λ r. cc) (λ r. cc))
Passes-Untold (main_torn_down q) d = absurd (d.untorn q)

-- For an unsupported type of check, in every run: the checker sends one message and returns, and no
-- send on `Quit` is ever received, so a teardown by the main loop never goes on past it.
pub Runs-Untold : {limit : ℕ} {s : Race} → Runs limit (start_race unknown_check) s → Untold s
unfolding start_race starts_at
Runs-Untold stays = record { at = inl refl; hears = refl; untorn = λ r. cc }
Runs-Untold (passes r p) = Passes-Untold p (Runs-Untold r)
