-- ===== src/Executor/Teardown.antt =====
-- `tearDown` (executor/executor.go), the first one of a task and a second one.
use mathlib.Core.Path.{subst}
use go_mesos_executor.Common.{◌≡◌, ◌≢◌, refl, sym, ◌∙◌, ap, String, true, Option, none, some}
use go_mesos_executor.Common.Exec.{
  GoError, Result, ok, err, fault, blocked, Exec, attempt, continue, drop_error, NoError,
  continue-cong, continue-keeps, continue-ok, settle-ok, RaisesOnly,
}
use go_mesos_executor.Common.Int.{ℤ}
use go_mesos_executor.Container.{Containerizer}
use go_mesos_executor.Hook.{
  Shared, Manager, pre_stop, post_stop, run_pre_stop_hooks, run_post_stop_hooks,
}
use go_mesos_executor.Hook.Run.{attempt_all, run_hooks-attempt_all, run_hooks-NoError}
use go_mesos_executor.Executor.{
  Agent, Executor, Checker, CheckerPhase, active, exiting, returned, quit_at, quit, quit_checker,
  on_shared, outside, stop_task, tear_down, new_status, update_status, throw_error, wrap,
}
use go_mesos_executor.Executor.Handlers.{
  report_killed, handle_kill, finish, wait_for_container, exit_of,
}
use go_mesos_executor.Executor.Launch.{throw_error-RaisesOnly}
use go_mesos_executor.Mesos.{TaskStatus}

-- The checker, if there is one, will still receive from `Quit`.
abbrev pub Listens : Option Checker → Type 0
Listens none = Unit
Listens (some k) = k.phase ≡ active

-- The checker once it has received from `Quit`.
abbrev pub told : Option Checker → Option Checker
told none = none
told (some k) = some (record k { phase = exiting })

module _ {O : Type 0} (c : Containerizer O) (m : Manager O) where
  pub drop-keeps :
      (r : Result (Unit {0}) × Executor O) {h : Option Checker}
      → r.1.health_checker ≡ h
      → (drop_error r).1.health_checker ≡ h
  drop-keeps (ok u, e) q = q
  drop-keeps (err x, e) q = q
  drop-keeps (fault x, e) q = q

  drop-NoError : (r : Result (Unit {0}) × Executor O) → NoError r.0 → drop_error r ≡ r
  drop-NoError (ok u, e) n = refl
  drop-NoError (err x, e) n = absurd n
  drop-NoError (fault x, e) n = refl

  pub quit-Listens :
      (o : Option Checker) (e : Executor O)
      → e.health_checker ≡ o
      → Listens o
      → quit o e ≡ (ok tt, record e { health_checker = told o })
  quit-Listens none e q l = ap (λ h. (ok tt, record e { health_checker = h })) q
  quit-Listens (some k) e q l = ap (λ p. quit_at p k e) l

  -- Every pre-stop hook is tried, then the stop of the container, then every post-stop hook, each
  -- with the errors before it dropped.
  abbrev pub teardown_of : String → Exec (Executor O) (Unit {0})
  teardown_of id e = continue (on_shared (attempt_all pre_stop c id m.hooks) e) (λ _ e2.
      continue (attempt (outside (c.container_stop id)) e2)
        (λ _ e3. on_shared (attempt_all post_stop c id m.hooks) e3))

  pre-attempt_all :
      (id : String) (e : Executor O)
      → attempt (on_shared (run_pre_stop_hooks m id c)) e
        ≡ on_shared (attempt_all pre_stop c id m.hooks) e
  unfolding run_pre_stop_hooks
  pre-attempt_all id e =
      drop-NoError (on_shared (run_pre_stop_hooks m id c) e)
        (run_hooks-NoError pre_stop c id m e.shared tt)
      ∙ ap (λ (r : Result (Unit {0}) × Shared O). (r.0, record e { shared = r.1 }))
          (run_hooks-attempt_all pre_stop c id m e.shared tt)

  post-attempt_all :
      (id : String) (e : Executor O)
      → attempt (on_shared (run_post_stop_hooks m id c)) e
        ≡ on_shared (attempt_all post_stop c id m.hooks) e
  unfolding run_post_stop_hooks
  post-attempt_all id e =
      drop-NoError (on_shared (run_post_stop_hooks m id c) e)
        (run_hooks-NoError post_stop c id m e.shared tt)
      ∙ ap (λ (r : Result (Unit {0}) × Shared O). (r.0, record e { shared = r.1 }))
          (run_hooks-attempt_all post_stop c id m e.shared tt)

  -- With no health checker, or one that still listens, a teardown tells the checker to quit, tries
  -- every pre-stop hook in order, then to stop the container, then every post-stop hook in order. No
  -- error of any of these keeps the next from being tried.
  pub tear_down-attempt_all :
      (e : Executor O)
      → Listens e.health_checker
      → tear_down c m e
        ≡ teardown_of e.container_id (record e { health_checker = told e.health_checker })
  unfolding tear_down quit_checker
  tear_down-attempt_all e l =
      let id = e.container_id in
      let e1 = record e { health_checker = told e.health_checker } in
      ap (λ (r : Result (Unit {0}) × Executor O). continue r (λ _. stop_task c m))
        (quit-Listens e.health_checker e refl l)
      ∙ ap
          (λ (r : Result (Unit {0}) × Executor O). continue {B = Unit {0}} r (λ _ e2.
            continue (attempt (outside (c.container_stop id)) e2)
              (λ _ e3. attempt (on_shared (run_post_stop_hooks m id c)) e3)))
          (pre-attempt_all id e1)
      ∙ continue-cong (on_shared (attempt_all pre_stop c id m.hooks) e1) _ _ (λ _ e2.
        continue-cong (attempt (outside (c.container_stop id)) e2) _ _
          (λ _ e3. post-attempt_all id e3))

  quit_at-blocked :
      (p : CheckerPhase) (k : Checker) (e : Executor O)
      → p ≢ active
      → quit_at p k e ≡ (fault (blocked "Quit"), e)
  quit_at-blocked active k e n = absurd (n refl)
  quit_at-blocked exiting k e n = refl
  quit_at-blocked returned k e n = refl

  -- A teardown where the checker has been told to quit before, or has returned by itself, waits for
  -- ever on the channel: no hook runs, the container is not stopped, and nothing changes.
  pub tear_down-blocked :
      (e : Executor O) (k : Checker)
      → e.health_checker ≡ some k
      → k.phase ≢ active
      → tear_down c m e ≡ (fault (blocked "Quit"), e)
  unfolding tear_down
  tear_down-blocked e k q n =
      ap (λ (r : Result (Unit {0}) × Executor O). continue r (λ _. stop_task c m))
        (ap (λ h. quit h e) q ∙ quit_at-blocked k.phase k e n)

  abbrev checker_of : Executor O → Option Checker
  checker_of e = e.health_checker

  pub stop_task-keeps : (e : Executor O) → checker_of (stop_task c m e).1 ≡ checker_of e
  unfolding stop_task
  stop_task-keeps e =
      let pre = on_shared (run_pre_stop_hooks m e.container_id c) in
      let stop = outside (c.container_stop e.container_id) in
      let post = on_shared (run_post_stop_hooks m e.container_id c) in
      continue-keeps checker_of (attempt pre e) _ (drop-keeps (pre e) refl) (λ _ e2.
        continue-keeps checker_of (attempt stop e2) _ (drop-keeps (stop e2) refl)
          (λ _ e3. drop-keeps (post e3) refl))

  pub quit_at-told :
      (p : CheckerPhase) (k : Checker) (e e' : Executor O)
      → quit_at p k e ≡ (ok tt, e')
      → checker_of e' ≡ told (some k)
  quit_at-told active k e e' h = ap (λ (r : Result (Unit {0}) × Executor O). checker_of r.1) (sym h)
  quit_at-told exiting k e e' h = absurd (cc h)
  quit_at-told returned k e e' h = absurd (cc h)

  -- After a teardown that came back the checker has been told to quit.
  pub tear_down-told :
      (e e' : Executor O) (k : Checker)
      → checker_of e ≡ some k
      → tear_down c m e ≡ (ok tt, e')
      → checker_of e' ≡ told (some k)
  unfolding tear_down
  tear_down-told e e' k q did =
      let w = continue-ok (quit e.health_checker e) _ tt e' did in
      ap (λ (r : Result (Unit {0}) × Executor O). checker_of r.1) (sym w.second)
      ∙ stop_task-keeps w.state
      ∙ quit_at-told k.phase k e w.state (subst (λ h. quit h e ≡ (ok w.value, w.state)) q w.first)

module _ {O : Type 0} (c : Containerizer O) (m : Manager O) (agent : Agent O) where
  pub update_status-keeps :
      (status : TaskStatus) (e : Executor O)
      → (update_status agent status e).1.health_checker ≡ e.health_checker
  unfolding update_status
  update_status-keeps status e =
      continue-keeps (λ (x : Executor O). x.health_checker) (outside (agent.do_call _) e) _ refl
        (λ _ _. refl)

  finish-told :
      (e e' : Executor O) (k : Checker)
      → e.health_checker ≡ some k
      → finish c m agent none e ≡ (ok tt, e')
      → e'.health_checker ≡ told (some k)
  unfolding new_status
  finish-told e e' k q did =
      let w = continue-ok (tear_down c m e) _ tt e' did in
      ap (λ (r : Result (Unit {0}) × Executor O). r.1.health_checker) (sym w.second)
      ∙ update_status-keeps _ _
      ∙ tear_down-told c m e w.state k q w.first

  throws :
      (x : GoError) (e e' : Executor O) → throw_error c m agent {A = Unit {0}} x e ≡ (ok tt, e') → ⊥
  throws x e e' did =
      subst (λ (r : Result (Unit {0}) × Executor O). RaisesOnly x r.0) did
        (throw_error-RaisesOnly c m agent (Unit {0}) x e)

  finish-told_of :
      (o : Option GoError) (e e' : Executor O) (k : Checker)
      → e.health_checker ≡ some k
      → finish c m agent o e ≡ (ok tt, e')
      → e'.health_checker ≡ told (some k)
  finish-told_of none e e' k q did = finish-told e e' k q did
  finish-told_of (some x) e e' k q did = absurd (throws x e e' did)

  wait-told :
      (e e' : Executor O) (k : Checker)
      → e.health_checker ≡ some k
      → wait_for_container c m agent e ≡ (ok tt, e')
      → e'.health_checker ≡ told (some k)
  unfolding wait_for_container
  wait-told e e' k q did =
      settle-ok (e'.health_checker ≡ told (some k)) (outside (c.container_wait e.container_id) e) _
        _
        (λ x s bad. absurd (throws (wrap "error while waiting for container to stop: " x) s e' bad))
        (λ code s eq ends.
          finish-told_of (exit_of code) s e' k
            (ap (λ (r : Result ℤ × Executor O). r.1.health_checker) (sym eq) ∙ q) ends)
        did

  -- Let a task with a health checker end by itself, and let the goroutine that waits for it tear it
  -- down and report it as finished. Then a kill or shutdown that comes later sets the flag and
  -- waits for ever: it reports nothing, and the main loop does not come back from it.
  pub handle_kill-after_finish :
      (e e' : Executor O) (k : Checker)
      → e.health_checker ≡ some k
      → wait_for_container c m agent e ≡ (ok tt, e')
      → handle_kill c m agent e' ≡ (fault (blocked "Quit"), record e' { is_shutdown = true })
  unfolding handle_kill
  handle_kill-after_finish e e' k q did =
      ap (λ (r : Result (Unit {0}) × Executor O). continue r (λ _. report_killed c m agent))
        (tear_down-blocked c m (record e' { is_shutdown = true }) (record k { phase = exiting })
          (wait-told e e' k q did) (λ bad. cc))
