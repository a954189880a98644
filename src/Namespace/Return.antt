-- ===== src/Namespace/Return.antt =====
-- namespace/namespace.go: the thread on the way into a namespace and back.
use go_mesos_executor.Common.{
  ◌≡◌, refl, sym, ◌∙◌, ap, ℕ, ◌+◌, ◌-◌, Bool, true, false, str_eq, if◌then◌else◌, arith,
}
use go_mesos_executor.Common.Exec.{GoError, Exec, Result, ok, err, fault, raise, continue-keeps}
use go_mesos_executor.Namespace.{
  Netns, Thread, on_thread, deferring, lock_thread, unlock_thread, process_path,
  enter_network_namespace, exit_network_namespace,
}
use go_mesos_executor.Outside.{Viper}

module _ {S A : Type 0} where
  pub deferring-ok :
      (r : Result A × S) (m : Exec S (Unit {0})) (a : A) (s' : S)
      → deferring r m ≡ (ok a, s')
      → (s : S) × (r ≡ (ok a, s))
  deferring-ok (ok b, s) m a s' p = (s, cc p)
  deferring-ok (err e, s) m a s' p = absurd (cc p)
  deferring-ok (fault x, s) m a s' p = absurd (cc p)

-- What package netns documents: a switch that succeeds puts the thread into the namespace; and, as
-- the executor's own handle stays open, the switch back to it succeeds.
pub record IsNetns {O Ns : Type 0} (netns : Netns O Ns) (current : Ns) (at : O → Ns) : Type 0 where
  pub set_ok : (ns : Ns) (o o' : O) → netns.set ns o ≡ (ok tt, o') → at o' ≡ ns
  pub set_current : (o : O) → (o' : O) × (netns.set current o ≡ (ok tt, o'))

module _ {O Ns : Type 0} (viper : Viper) (netns : Netns O Ns) (current : Ns) (at : O → Ns)
    (L : IsNetns netns current at) where
  -- Back where the executor runs, with one lock less.
  exit_at :
      (t : Thread O)
      → (o' : O) × (exit_network_namespace viper netns current t
          ≡ (ok tt, record { locks = t.locks - 1; outside = o' }))
        × (at o' ≡ current)
  unfolding exit_network_namespace unlock_thread
  exit_at t =
      let (o', e) = L.set_current t.outside in
      (
        o',
        ap
            (λ (r : Result (Unit {0}) × O).
              deferring (r.0, record t { outside = r.1 }) (unlock_thread viper netns current))
            e,
        L.set_ok current t.outside o' e,
      )

  pub enter-locks :
      (pid : ℕ) (t : Thread O)
      → (enter_network_namespace viper netns current pid t).1.locks ≡ t.locks + 1
  unfolding enter_network_namespace lock_thread
  enter-locks pid t =
      let locked : Thread O = record t { locks = t.locks + 1 } in
      continue-keeps (λ (x : Thread O). x.locks)
        (on_thread (netns.get_from_path (process_path viper netns current pid)) locked) _ refl
        (λ ns x. either (str_eq (netns.unique_id ns) (netns.unique_id current)) _ ns x)
    where
      either :
          (b : Bool) (e : GoError) (ns : Ns) (x : Thread O)
          → ((if b then raise e else on_thread (netns.set ns)) x).1.locks ≡ x.locks
      either true e ns x = refl
      either false e ns x = refl

  -- A body that ends with one lock more, and the way back after it.
  pub deferring-exit :
      {A : Type 0} (r : Result A × Thread O) (n : ℕ) (a : A) (t' : Thread O)
      → r.1.locks ≡ n + 1
      → deferring r (exit_network_namespace viper netns current) ≡ (ok a, t')
      → (at t'.outside ≡ current) × (t'.locks ≡ n)
  deferring-exit {A} (ok b, t) n a t' h p =
      let (o', e, home) = exit_at t in
      let q : record { locks = t.locks - 1; outside = o' } ≡ t' =
        sym (ap (λ (x : Result (Unit {0}) × Thread O). x.1) e)
        ∙ ap (λ (x : Result A × Thread O). x.1) p in
      (
        sym (ap (λ (x : Thread O). at x.outside) q) ∙ home,
        sym (ap (λ (x : Thread O). x.locks) q) ∙ (ap (λ k. k - 1) h ∙ back n),
      )
    where
      back : (k : ℕ) → k + 1 - 1 ≡ k
      back k = omega arith
  deferring-exit {A} (err e, t) n a t' h p = absurd (cc p)
  deferring-exit {A} (fault x, t) n a t' h p = absurd (cc p)
