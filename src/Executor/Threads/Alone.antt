-- ===== src/Executor/Threads/Alone.antt =====
-- The end of a task with a health checker (executor/executor.go), with any number of goroutines in
-- the routines of Executor/Threads.
use mathlib.Core.Path.{subst}
use native.Mathlib.Decide.{ℕ_discrete}
use mathlib.Core.Logic.{ite}
use go_mesos_executor.Common.{ℕ, suc, ◌≤◌, ◌≡◌, refl, sym, ◌∙◌, ap, Option, none, some, arith}
use go_mesos_executor.Common.Exec.{Result, ok, attempt, continue-keeps}
use go_mesos_executor.Container.{Containerizer}
use go_mesos_executor.Hook.{Manager, run_pre_stop_hooks, run_post_stop_hooks}
use go_mesos_executor.Executor.{
  wait_container, Agent, Executor, Checker, CheckerPhase, active, exiting, returned, quit_at, quit,
  quit_checker, on_shared, outside, new_status, report_failed,
}
use go_mesos_executor.Executor.Handlers.{report_killed}
use go_mesos_executor.Executor.Teardown.{drop-keeps, update_status-keeps, quit_at-told}
use go_mesos_executor.Executor.Loop.{without_goroutine}
use go_mesos_executor.Executor.Threads.{
  Routine, killing, ending, Stage, flagging, quitting, pre_stopping, stopping, post_stopping,
  reporting, following, Place, elsewhere, within_routine, update_at, report, flag, perform, Threads,
  count_pass, Goes, kills, container_ends, calls, ends, others, checker_ends, Run, stands, goes,
  quiet,
}

-- Behind the send on `Quit`.
abbrev pub PastStage : Stage → Type 0
PastStage flagging = ⊥
PastStage quitting = ⊥
PastStage _ = Unit

abbrev pub Past : Place → Type 0
Past elsewhere = ⊥
Past (within_routine r s) = PastStage s

module _ {O : Type 0} (c : Containerizer O) (m : Manager O) (agent : Agent O) where
  abbrev checker : {A : Type 0} → Result A × Executor O → Option Checker
  checker x = x.1.health_checker

  flag-checker : (r : Routine) (e : Executor O) → checker (flag c m agent r e) ≡ e.health_checker
  flag-checker killing e = refl
  flag-checker (ending x) e = refl

  report-checker :
      (r : Routine) (e : Executor O) → checker (report c m agent r e) ≡ e.health_checker
  unfolding report_killed report_failed new_status
  report-checker killing e = update_status-keeps c m agent _ _
  report-checker (ending none) e = update_status-keeps c m agent _ _
  report-checker (ending (some x)) e =
      continue-keeps (λ (y : Executor O). y.health_checker) (attempt (report_failed agent x) e) _
        (drop-keeps c m (report_failed agent x e) (update_status-keeps c m agent _ _)) (λ _ _. refl)

  -- What holds of the goroutines and the checker.
  pub record Alone (t : Threads O) : Type 0 where
    pub has_checker : (k : Checker) × (t.executor.health_checker ≡ some k)
    pub fresh : (k : Checker) → t.executor.health_checker ≡ some k → k.phase ≡ active → t.passed ≡ 0
    pub few : t.passed ≤ 1
    pub counted : (i : ℕ) → Past (t.place i) → t.passed ≡ 1
    pub unique : (i j : ℕ) → Past (t.place i) → Past (t.place j) → i ≡ j

  updated-Past :
      (f : ℕ → Place) (i j : ℕ) (x : Place)
      → (Past x → Past (f i))
      → Past (update_at f i x j)
      → Past (f j)
  updated-Past f i j x h p =
      elim (ℕ_discrete i j) as (λ d. Past (ite d x (f j)) → Past (f j)) [
        | yes same ↦ λ q. subst (λ k. Past (f k)) same (h q)
        | no differ ↦ λ q. q
      ]
        p

  -- The checker as it was, and no goroutine newly past it.
  still-Alone :
      (t : Threads O) (e : Executor O) (f : ℕ → Place)
      → e.health_checker ≡ t.executor.health_checker
      → ((j : ℕ) → Past (f j) → Past (t.place j))
      → Alone t
      → Alone (record { executor = e; place = f; passed = t.passed })
  still-Alone t e f same h a = record {
    has_checker = (a.has_checker.0, same ∙ a.has_checker.1);
    fresh = λ k q. a.fresh k (sym same ∙ q);
    few = a.few;
    counted = λ i p. a.counted i (h i p);
    unique = λ i j p q. a.unique i j (h i p) (h j q);
  }

  passes-active :
      (p : CheckerPhase) (k : Checker) (e e' : Executor O)
      → quit_at p k e ≡ (ok tt, e')
      → p ≡ active
  passes-active active k e e' h = refl
  passes-active exiting k e e' h = absurd (cc h)
  passes-active returned k e e' h = absurd (cc h)

  passed-Past :
      (t : Threads O) (i j : ℕ) (x : Place)
      → Alone t
      → t.passed ≡ 0
      → Past (update_at t.place i x j)
      → i ≡ j
  passed-Past t i j x a none_passed p =
      elim (ℕ_discrete i j) as (λ d. Past (ite d x (t.place j)) → i ≡ j) [
        | yes same ↦ λ q. same
        | no differ ↦ λ q. absurd (omega (arith, none_passed, a.counted j q))
      ]
        p

  -- The send on `Quit`.
  quits-Alone :
      (t : Threads O) (i : ℕ) (x : Place) (k : Checker) (e : Executor O)
      → t.executor.health_checker ≡ some k
      → quit_at k.phase k t.executor ≡ (ok tt, e)
      → Alone t
      → Alone (record { executor = e; place = update_at t.place i x; passed = suc t.passed })
  quits-Alone t i x k e at did a =
      let none_passed = a.fresh k at (passes-active k.phase k t.executor e did) in
      let now = quit_at-told c m k.phase k t.executor e did in
      record {
        has_checker = (record k { phase = exiting }, now);
        fresh = λ k' q p. absurd (cc (sym now ∙ q, p));
        few = omega (arith, none_passed);
        counted = λ j p. omega (arith, none_passed);
        unique = λ j l p q.
            sym (passed-Past t i j x a none_passed p) ∙ passed-Past t i l x a none_passed q;
      }

  kept :
      {x : Result (Unit {0}) × Executor O} {r : Result (Unit {0})} {e : Executor O}
      {h : Option Checker}
      → x ≡ (r, e)
      → checker x ≡ h
      → e.health_checker ≡ h
  kept eq q = ap checker (sym eq) ∙ q

  calls-Alone :
      (t : Threads O) (i : ℕ) (r : Routine) (s s' : Stage) (e : Executor O)
      → t.place i ≡ within_routine r s
      → following s ≡ some s'
      → perform c m agent r s t.executor ≡ (ok tt, e)
      → Alone t
      → Alone (record {
        executor = e;
        place = update_at t.place i (within_routine r s');
        passed = count_pass s t.passed;
      })
  unfolding perform quit_checker
  calls-Alone t i r flagging s' e at next did a =
      still-Alone t e _ (kept did (flag-checker r t.executor))
        (λ j.
          updated-Past t.place i j _
            (λ p. absurd (subst PastStage {x = s'} {y = quitting} (cc (sym next)) p)))
        a
  calls-Alone t i r quitting s' e at next did a =
      let (k, q) = a.has_checker in
      quits-Alone t i _ k e q (subst (λ h. quit h t.executor ≡ (ok tt, e)) q did) a
  calls-Alone t i r pre_stopping s' e at next did a =
      still-Alone t e _
        (kept did (
          drop-keeps c m (on_shared (run_pre_stop_hooks m t.executor.container_id c) t.executor)
            refl))
        (λ j. updated-Past t.place i j _ (λ p. subst Past (sym at) tt)) a
  calls-Alone t i r stopping s' e at next did a =
      still-Alone t e _
        (kept did
          (drop-keeps c m (outside (c.container_stop t.executor.container_id) t.executor) refl))
        (λ j. updated-Past t.place i j _ (λ p. subst Past (sym at) tt)) a
  calls-Alone t i r post_stopping s' e at next did a =
      still-Alone t e _
        (kept did (
          drop-keeps c m (on_shared (run_post_stop_hooks m t.executor.container_id c) t.executor)
            refl))
        (λ j. updated-Past t.place i j _ (λ p. subst Past (sym at) tt)) a
  calls-Alone t i r reporting s' e at next did a = absurd (cc next)

  Goes-Alone : {t u : Threads O} → Goes c m agent t u → Alone t → Alone u
  unfolding perform
  Goes-Alone {t} (kills i at) a =
      still-Alone t t.executor _ refl (λ j. updated-Past t.place i j _ (λ p. absurd p)) a
  Goes-Alone {t} (container_ends i x at waits) a =
      still-Alone t (without_goroutine wait_container t.executor) _ refl
        (λ j. updated-Past t.place i j _ (λ p. absurd p)) a
  Goes-Alone {t} (calls i {r} {s} {s'} {e} at next did) a = calls-Alone t i r s s' e at next did a
  Goes-Alone {t} (ends i {r} {x} {e} at did) a =
      still-Alone t e _ (kept did (report-checker r t.executor))
        (λ j. updated-Past t.place i j _ (λ p. absurd p)) a
  Goes-Alone {t} (others {e} same) a = still-Alone t e t.place same (λ j p. p) a
  Goes-Alone {t} (checker_ends {k} at) a = record {
    has_checker = (record k { phase = returned }, refl);
    fresh = λ k' q p. absurd (cc (q, p));
    few = a.few;
    counted = a.counted;
    unique = a.unique;
  }

  quiet-Alone : (e : Executor O) (k : Checker) → e.health_checker ≡ some k → Alone (quiet e)
  quiet-Alone e k at = record {
    has_checker = (k, at);
    fresh = λ k' q p. refl;
    few = omega arith;
    counted = λ i p. absurd p;
    unique = λ i j p q. absurd p;
  }

  Run-Alone : {t u : Threads O} → Run c m agent t u → Alone t → Alone u
  Run-Alone stands a = a
  Run-Alone (goes r g) a = Goes-Alone g (Run-Alone r a)

  -- With a health checker, in every interleaving of any number of goroutines in `handleKill` or at
  -- the end of `waitContainer`: at most one of them ever gets past the send on `Quit`, so at most
  -- one goes on to the stop hooks, the stop of the container and the final status of the task.
  pub Run-passed :
      {t : Threads O} (e : Executor O) (k : Checker)
      → e.health_checker ≡ some k
      → Run c m agent (quiet e) t
      → t.passed ≤ 1
  Run-passed e k at r = (Run-Alone r (quiet-Alone e k at)).few

  -- With a health checker, two goroutines that are past the send on `Quit` are the same one, and no
  -- other has got past it before.
  pub Run-unique :
      {t : Threads O} (e : Executor O) (k : Checker) (i j : ℕ)
      → e.health_checker ≡ some k
      → Run c m agent (quiet e) t
      → Past (t.place i)
      → Past (t.place j)
      → (i ≡ j) × (t.passed ≡ 1)
  Run-unique e k i j at r p q =
      let a = Run-Alone r (quiet-Alone e k at) in (a.unique i j p q, a.counted i p)
