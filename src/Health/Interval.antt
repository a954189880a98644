-- ===== src/Health/Interval.antt =====
-- The interval between two checks (healthcheck/healthcheck.go), as the ticker gets it.
use native.Mathlib.Nat.{div-lt_iff_lt-mul}
use go_mesos_executor.Common.{
  ℕ, ◌*◌, ◌^◌, ◌<◌, ◌≤◌, ◌≡◌, ◌↔◌, ◌⊎◌, inl, inr, refl, sym, ◌∙◌, ap, Bool, true, false, some,
  arith, if◌then◌else◌,
}
use go_mesos_executor.Common.Exec.{Result, ok, fault, panic}
use go_mesos_executor.Common.Int.{power_pos, pos, ltb_ℤ, to_int64}
use go_mesos_executor.Mesos.{Float64, truncate, HealthCheck, or_default}
use go_mesos_executor.Health.{Watch, fresh, default_interval, seconds, new_ticker}

-- The ticker for a whole number of seconds.
abbrev ticker_of : Bool → Result Watch
ticker_of positive =
    if positive then ok fresh else fault (panic "non-positive interval for NewTicker")

ticker_of-fault :
    (b : Bool) → (ticker_of b ≡ fault (panic "non-positive interval for NewTicker")) ↔ (b ≡ false)
ticker_of-fault true = (λ e. absurd (cc e), λ e. absurd (cc e))
ticker_of-fault false = (λ e. refl, λ e. refl)

-- Up to where the product wraps around for the second time.
seconds-positive :
    (n : ℕ) → n < 18446744074 → (ltb_ℤ (pos 0) (seconds n) ≡ false) ↔ (n < 1) ⊎ (9223372037 ≤ n)
unfolding to_int64
seconds-positive n l = (λ e. ground (arith, e), λ h. ground (arith, h))

below : (f : Float64) (n : ℕ) → (truncate f < n) ↔ (f.mantissa * 2 ^ f.up < n * 2 ^ f.down)
below f n =
    div-lt_iff_lt-mul {k = 2 ^ f.down} {x = f.mantissa * 2 ^ f.up} {y = n} (power_pos f.down)

not_below : {a b x y : ℕ} → (a < b) ↔ (x < y) → (b ≤ a) ↔ (y ≤ x)
not_below {a} {b} {x} {y} i = (
  λ h. elim (le_or_lt y x) [ inl l ↦ l | inr k ↦ absurd (omega (arith, h, i.1 k)) ],
  λ h. elim (le_or_lt b a) [ inl l ↦ l | inr k ↦ absurd (omega (arith, h, i.0 k)) ],
)
  where
    le_or_lt : (m n : ℕ) → (m ≤ n) ⊎ (n < m)
    le_or_lt m n = omega arith

both : {A B C D : Type 0} → A ↔ B → C ↔ D → (A ⊎ C) ↔ (B ⊎ D)
both i j = (
  λ h. elim h [ inl a ↦ inl (i.0 a) | inr c ↦ inr (j.0 c) ],
  λ h. elim h [ inl b ↦ inl (i.1 b) | inr d ↦ inr (j.1 d) ],
)

-- For a task that sets the interval of its checks, to v = m * 2 ^ u / 2 ^ d seconds with
-- v < 18446744074: the checker panics when it makes its ticker just if v is less than one second,
-- or so large that the product by `time.Second` is beyond an int64 and comes out negative.
pub new_ticker-fault :
    (h : HealthCheck) (f : Float64)
    → h.interval_seconds ≡ some f
    → f.mantissa * 2 ^ f.up < 18446744074 * 2 ^ f.down
    → (new_ticker h ≡ fault (panic "non-positive interval for NewTicker"))
      ↔ (f.mantissa * 2 ^ f.up < 1 * 2 ^ f.down) ⊎ (9223372037 * 2 ^ f.down ≤ f.mantissa * 2 ^ f.up)
unfolding new_ticker
new_ticker-fault h f q l =
    let n = truncate f in
    let same : new_ticker h ≡ ticker_of (ltb_ℤ (pos 0) (seconds n)) =
      ap (λ o. ticker_of (ltb_ℤ (pos 0) (seconds (truncate (or_default default_interval o))))) q in
    let t = ticker_of-fault (ltb_ℤ (pos 0) (seconds n)) in
    let s = seconds-positive n ((below f 18446744074).1 l) in
    let b = both (below f 1) (not_below (below f 9223372037)) in
    (λ e. b.0 (s.0 (t.0 (sym same ∙ e))), λ h. same ∙ t.1 (s.1 (b.1 h)))
