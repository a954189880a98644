-- ===== src/Health/Giveup.antt =====
-- What must have happened before the checker of healthcheck/healthcheck.go gives a task up.
use go_mesos_executor.Common.{
  ℕ, zero, suc, ◌+◌, ◌-◌, ◌^◌, ◌≤◌, ◌<◌, ◌≡◌, refl, sym, Bool, true, false, ◌⊎◌, inl, inr, List, [],
  ◌∷◌, arith, ◌==◌, if◌then◌else◌,
}
use mathlib.Core.Path.{subst}
use go_mesos_executor.Health.{
  Watch, Input, tick, grace_over, Message, changed, done, u32, fresh, on_tick, count_failure,
  is_done, watch,
}

-- The checker has said that it gives up.
abbrev pub HasDone : List Message → Type 0
HasDone [] = ⊥
HasDone (done ∷ ms) = Unit
HasDone (changed _ ∷ ms) = HasDone ms

-- The next n checks fail.
abbrev pub Starts : ℕ → List Input → Type 0
Starts zero is = Unit
Starts (suc n) [] = ⊥
Starts (suc n) (tick true ∷ is) = ⊥
Starts (suc n) (tick false ∷ is) = Starts n is
Starts (suc n) (grace_over ∷ is) = Starts (suc n) is

-- Somewhere n checks in a row fail.
abbrev pub Somewhere : ℕ → List Input → Type 0
Somewhere n [] = Starts n []
Somewhere n (i ∷ is) = Starts n (i ∷ is) ⊎ Somewhere n is

Starts-pred : (n : ℕ) (is : List Input) → Starts (suc n) is → Starts n is
Starts-pred zero is h = tt
Starts-pred (suc n) (tick false ∷ is) h = Starts-pred n is h
Starts-pred (suc n) (grace_over ∷ is) h = Starts-pred (suc n) is h
Starts-pred (suc n) (tick true ∷ is) h = absurd h
Starts-pred (suc n) [] h = absurd h

now : (n : ℕ) (is : List Input) → Starts n is → Somewhere n is
now n [] h = h
now n (i ∷ is) h = inl h

-- What comes out of a failed check with f failures behind it and m + 1 to go.
data Failed (limit : ℕ) (w : Watch) (m : ℕ) : Watch × Message → Type 0 where
  in_grace : Failed limit w m (w, changed false)
  gives_up : {w' : Watch} → m ≡ 0 → Failed limit w m (w', done)
  counts :
      {w' : Watch} {k : ℕ}
      → m ≡ suc k
      → w'.consecutive_failures + suc k ≡ limit
      → Failed limit w m (w', changed false)

on_tick-Failed :
    (limit m : ℕ) (w : Watch)
    → w.consecutive_failures + suc m ≡ limit
    → limit < 2 ^ 32
    → Failed limit w m (on_tick limit w false)
unfolding on_tick count_failure
on_tick-Failed limit m w q h = by_grace w.grace_period_expired
  where
    counted :
        (m : ℕ) (b : Bool)
        → w.consecutive_failures + suc m ≡ limit
        → (u32 (w.consecutive_failures + 1) == limit) ≡ b
        → Failed limit w m (
            if b
            then (
              record w {
                consecutive_failures = u32 (w.consecutive_failures + 1);
                ticker_on = false;
              },
              done,
            )
            else (
              record w { consecutive_failures = u32 (w.consecutive_failures + 1) },
              changed false,
            ))
    counted m true q e = gives_up (ground (arith, q, e, h))
    counted zero false q e = absurd (ground (arith, q, e, h))
    counted (suc k) false q e = counts refl (ground (arith, q, e, h))

    by_grace :
        (b : Bool) → Failed limit w m (if b then count_failure limit w else (w, changed false))
    by_grace true = counted m (u32 (w.consecutive_failures + 1) == limit) q refl
    by_grace false = in_grace

-- What follows a tick.
abbrev proceed : ℕ → List Input → Watch × Message → Watch × List Message
proceed limit is y =
    let rest = watch limit y.0 is in if is_done y.1 then (y.0, y.1 ∷ []) else (rest.0, y.1 ∷ rest.1)

proceed-Somewhere :
    (limit m : ℕ) (w : Watch) (is : List Input)
    → w.consecutive_failures + suc m ≡ limit
    → ((k : ℕ) (w' : Watch)
        → w'.consecutive_failures + suc k ≡ limit
        → HasDone (watch limit w' is).1
        → Starts (suc k) is ⊎ Somewhere limit is)
    → (y : Watch × Message) → Failed limit w m y
    → HasDone (proceed limit is y).1
    → Starts (suc m) (tick false ∷ is) ⊎ Somewhere limit (tick false ∷ is)
proceed-Somewhere limit m w is q rec y in_grace d = still (rec m w q d)
  where
    still :
        Starts (suc m) is ⊎ Somewhere limit is
        → Starts (suc m) (tick false ∷ is) ⊎ Somewhere limit (tick false ∷ is)
    still (inl s) = inl (Starts-pred m is s)
    still (inr s) = inr (inr s)
proceed-Somewhere limit m w is q rec y (gives_up e) d = inl (subst (λ k. Starts k is) (sym e) tt)
proceed-Somewhere limit m w is q rec y (counts {w'} {k} e q') d = one_less (rec k w' q' d)
  where
    one_less :
        Starts (suc k) is ⊎ Somewhere limit is
        → Starts (suc m) (tick false ∷ is) ⊎ Somewhere limit (tick false ∷ is)
    one_less (inl s) = inl (subst (λ j. Starts j is) (sym e) s)
    one_less (inr s) = inr (inr s)

-- With f failures behind, either the missing m + 1 come next, or a whole row comes later.
watch-Somewhere :
    (limit m : ℕ) (w : Watch) (is : List Input)
    → w.consecutive_failures + suc m ≡ limit
    → limit < 2 ^ 32
    → HasDone (watch limit w is).1
    → Starts (suc m) is ⊎ Somewhere limit is
unfolding watch
watch-Somewhere limit m w [] q h d = absurd d
watch-Somewhere limit m w (grace_over ∷ is) q h d =
    later_grace (watch-Somewhere limit m (record w { grace_period_expired = true }) is q h d)
  where
    later_grace :
        Starts (suc m) is ⊎ Somewhere limit is
        → Starts (suc m) (grace_over ∷ is) ⊎ Somewhere limit (grace_over ∷ is)
    later_grace (inl s) = inl s
    later_grace (inr s) = inr (inr s)
watch-Somewhere limit m w (tick true ∷ is) q h d = reset (
    watch-Somewhere limit (limit - 1)
      (record w { consecutive_failures = 0; grace_period_expired = true }) is (omega arith) h d)
  where
    whole : suc (limit - 1) ≡ limit
    whole = omega arith

    reset :
        Starts (suc (limit - 1)) is ⊎ Somewhere limit is
        → Starts (suc m) (tick true ∷ is) ⊎ Somewhere limit (tick true ∷ is)
    reset (inl s) = inr (inr (now limit is (subst (λ k. Starts k is) whole s)))
    reset (inr s) = inr (inr s)
watch-Somewhere limit m w (tick false ∷ is) q h d =
    proceed-Somewhere limit m w is q (λ k w' q' d'. watch-Somewhere limit k w' is q' h d')
      (on_tick limit w false) (on_tick-Failed limit m w q h) d

-- With a limit of at least 1 failure, below 2 ^ 32: a checker that gives its task up, after whatever
-- ticks and wherever the grace period ended among them, has seen at least as many checks in a row
-- fail as the limit says.
pub watch-HasDone :
    (limit : ℕ) (is : List Input)
    → 1 ≤ limit
    → limit < 2 ^ 32
    → HasDone (watch limit fresh is).1
    → Somewhere limit is
watch-HasDone limit is l h d = either (watch-Somewhere limit (limit - 1) fresh is (omega arith) h d)
  where
    whole : suc (limit - 1) ≡ limit
    whole = omega arith

    either : Starts (suc (limit - 1)) is ⊎ Somewhere limit is → Somewhere limit is
    either (inl s) = now limit is (subst (λ k. Starts k is) whole s)
    either (inr s) = s
