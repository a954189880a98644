-- ===== src/Hook/Run.antt =====
-- The loop of `runHooks` (hook/hook_manager.go): which hooks run, in which order, and what an error
-- of one of them does.
use go_mesos_executor.Common.{
  ◌≡◌, ◌≢◌, refl, sym, ◌∙◌, ap, String, true, false, List, [], ◌∷◌, ◌++◌, arith,
}
use go_mesos_executor.Common.Exec.{
  GoError, Result, ok, err, fault, Exec, pure, attempt, NoError, drop_error, ◌>>◌, continue,
  continue-cong,
}
use go_mesos_executor.Container.{Containerizer}
use go_mesos_executor.Hook.{
  Shared, pre_create, pre_run, post_run, pre_stop, post_stop, Hook, Manager, When, other_when,
  Selected, absent, unknown_when, chosen, select, run_selected, run_loop, run_hooks,
}

-- The five moments at which the executor runs hooks.
abbrev pub IsKnown : When → Type 0
IsKnown (other_when _) = ⊥
IsKnown _ = Unit

module _ {O : Type 0} where
  -- What one hook does, on its own, at a moment: nothing if it has no function for it.
  abbrev pub act : Selected O → Exec (Shared O) (Unit {0})
  act absent = pure tt
  act unknown_when = pure tt
  act (chosen m) = m

  -- All hooks from the first to the last, each error dropped.
  abbrev pub attempt_all :
      When → Containerizer O → String → List (Hook O) → Exec (Shared O) (Unit {0})
  attempt_all w c id [] = pure tt
  attempt_all w c id (h ∷ hs) = attempt (act (select w c id h)) >> attempt_all w c id hs

  -- All hooks in order, up to the first error.
  abbrev pub sequence : When → Containerizer O → String → List (Hook O) → Exec (Shared O) (Unit {0})
  sequence w c id [] = pure tt
  sequence w c id (h ∷ hs) = act (select w c id h) >> sequence w c id hs

  select-IsKnown :
      (w : When) (c : Containerizer O) (id : String) (h : Hook O)
      → IsKnown w
      → select w c id h ≢ unknown_when
  unfolding select
  select-IsKnown pre_create c id h k e = ground arith
  select-IsKnown pre_run c id h k e = ground arith
  select-IsKnown post_run c id h k e = ground arith
  select-IsKnown pre_stop c id h k e = ground arith
  select-IsKnown post_stop c id h k e = ground arith
  select-IsKnown (other_when x) c id h k e = absurd k

  run_selected-true :
      (x : Selected O) (rest : Exec (Shared O) (Unit {0})) (s : Shared O)
      → x ≢ unknown_when
      → run_selected true x rest s ≡ (act x >> rest) s
  unfolding run_selected
  run_selected-true x rest s n = ground arith

  run_selected-false :
      (x : Selected O) (rest : Exec (Shared O) (Unit {0})) (s : Shared O)
      → x ≢ unknown_when
      → run_selected false x rest s ≡ (attempt (act x) >> rest) s
  unfolding run_selected
  run_selected-false x rest s n = ground arith

  module _ (w : When) (c : Containerizer O) (id : String) where
    run_loop-true :
        (hs : List (Hook O)) (s : Shared O)
        → IsKnown w
        → run_loop w c id true hs s ≡ sequence w c id hs s
    unfolding run_loop
    run_loop-true [] s k = refl
    run_loop-true (h ∷ hs) s k =
        run_selected-true (select w c id h) (run_loop w c id true hs) s (select-IsKnown w c id h k)
        ∙ continue-cong (act (select w c id h) s) _ _ (λ _ t. run_loop-true hs t k)

    run_loop-false :
        (hs : List (Hook O)) (s : Shared O)
        → IsKnown w
        → run_loop w c id false hs s ≡ attempt_all w c id hs s
    unfolding run_loop
    run_loop-false [] s k = refl
    run_loop-false (h ∷ hs) s k =
        run_selected-false (select w c id h) (run_loop w c id false hs) s
          (select-IsKnown w c id h k)
        ∙ continue-cong (attempt (act (select w c id h)) s) _ _ (λ _ t. run_loop-false hs t k)

    -- The first error of a run: the hooks before it succeeded, and those after it did not run.
    pub record FailsAt (hs : List (Hook O)) (s s' : Shared O) (e : GoError) : Type 0 where
      pub before : List (Hook O)
      pub hook : Hook O
      pub after : List (Hook O)
      pub state : Shared O
      pub place : hs ≡ before ++ hook ∷ after
      pub ran : sequence w c id before s ≡ (ok tt, state)
      pub failed : act (select w c id hook) state ≡ (err e, s')

    FailsAt-cons :
        (h : Hook O) (hs : List (Hook O)) (s s' : Shared O) (e : GoError)
        → (r : Result (Unit {0}) × Shared O) → act (select w c id h) s ≡ r
        → ((t : Shared O) → sequence w c id hs t ≡ (err e, s') → FailsAt hs t s' e)
        → continue r (λ _. sequence w c id hs) ≡ (err e, s')
        → FailsAt (h ∷ hs) s s' e
    FailsAt-cons h hs s s' e (ok u, t) q rec p =
        let later : FailsAt hs t s' e = rec t p in
        record {
          before = h ∷ later.before;
          hook = later.hook;
          after = later.after;
          state = later.state;
          place = ap (◌∷◌ h) later.place;
          ran = rw q later.ran;
          failed = later.failed;
        }
    FailsAt-cons h hs s s' e (err x, t) q rec p = record {
      before = [];
      hook = h;
      after = hs;
      state = s;
      place = refl;
      ran = refl;
      failed = q ∙ p;
    }
    FailsAt-cons h hs s s' e (fault x, t) q rec p = absurd (cc p)

    sequence-err :
        (hs : List (Hook O)) (s s' : Shared O) (e : GoError)
        → sequence w c id hs s ≡ (err e, s')
        → FailsAt hs s s' e
    sequence-err [] s s' e p = absurd (cc (ap (λ (x : Result (Unit {0}) × Shared O). x.0) p))
    sequence-err (h ∷ hs) s s' e p =
        FailsAt-cons h hs s s' e (act (select w c id h) s) refl (λ t q. sequence-err hs t s' e q) p

    -- At each of the five moments, a run that stops on errors is the sequence of the hooks'
    -- functions for that moment, in the manager's order, up to the first error or fault.
    pub run_hooks-sequence :
        (m : Manager O) (s : Shared O)
        → IsKnown w
        → run_hooks w m c id true s ≡ sequence w c id m.hooks s
    unfolding run_hooks
    run_hooks-sequence m s k = run_loop-true m.hooks s k

    -- At each of the five moments, a run that goes on after errors tries every hook of the manager
    -- in order, each from the state that the one before it left, whether that failed or not.
    pub run_hooks-attempt_all :
        (m : Manager O) (s : Shared O)
        → IsKnown w
        → run_hooks w m c id false s ≡ attempt_all w c id m.hooks s
    unfolding run_hooks
    run_hooks-attempt_all m s k = run_loop-false m.hooks s k

    -- A run that stops on errors and returns one: there is a hook whose function returned just that
    -- error, in the state that is left; all hooks before it had succeeded, and none after it ran.
    pub run_hooks-FailsAt :
        (m : Manager O) (s s' : Shared O) (e : GoError)
        → IsKnown w
        → run_hooks w m c id true s ≡ (err e, s')
        → FailsAt m.hooks s s' e
    run_hooks-FailsAt m s s' e k p =
        sequence-err m.hooks s s' e (sym (run_hooks-sequence m s k) ∙ p)

    after_attempt-NoError :
        (r : Result (Unit {0}) × Shared O) (hs : List (Hook O))
        → ((t : Shared O) → NoError (attempt_all w c id hs t).0)
        → NoError (continue (drop_error r) (λ _. attempt_all w c id hs)).0
    after_attempt-NoError (ok u, t) hs h = h t
    after_attempt-NoError (err e, t) hs h = h t
    after_attempt-NoError (fault x, t) hs h = tt

    attempt_all-NoError : (hs : List (Hook O)) (s : Shared O) → NoError (attempt_all w c id hs s).0
    attempt_all-NoError [] s = tt
    attempt_all-NoError (h ∷ hs) s =
        after_attempt-NoError (act (select w c id h) s) hs (attempt_all-NoError hs)

    -- Teardown runs return no error.
    pub run_hooks-NoError :
        (m : Manager O) (s : Shared O) → IsKnown w → NoError (run_hooks w m c id false s).0
    run_hooks-NoError m s k = rw (run_hooks-attempt_all m s k) (attempt_all-NoError m.hooks s)
