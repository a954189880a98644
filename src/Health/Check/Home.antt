-- ===== src/Health/Check/Home.antt =====
-- The thread after a network check (healthcheck/healthcheck.go).
use mathlib.Core.Path.{subst}
use go_mesos_executor.Common.{◌≡◌, refl, ◌∙◌, ℕ, ◌+◌, String, Bool, true}
use go_mesos_executor.Common.Exec.{
  GoError, Exec, Result, ok, err, fault, pure, settle, continue-keeps, drop_error,
}
use go_mesos_executor.Mesos.{TaskInfo, bridge, get_network}
use go_mesos_executor.Namespace.{
  Netns, Thread, on_thread, deferring, enter_network_namespace, exit_network_namespace,
}
use go_mesos_executor.Namespace.Return.{IsNetns, enter-locks, deferring-exit}
use go_mesos_executor.Health.Check.{
  Dialer, with_connection, exchange, probe_http, probe_tcp, entered, in_network, check_http,
  check_tcp,
}
use go_mesos_executor.Outside.{Viper}

abbrev locks_of : {O : Type 0} → Thread O → ℕ
locks_of t = t.locks

module _ {O : Type 0} where
  settle-locks :
      {A B : Type 0} (r : Result A × Thread O) (g : GoError → Exec (Thread O) B)
      (f : A → Exec (Thread O) B) (n : ℕ)
      → locks_of r.1 ≡ n
      → ((e : GoError) (t : Thread O) → locks_of (g e t).1 ≡ locks_of t)
      → ((a : A) (t : Thread O) → locks_of (f a t).1 ≡ locks_of t)
      → locks_of (settle r g f).1 ≡ n
  settle-locks (ok a, t) g f n h k l = l a t ∙ h
  settle-locks (err e, t) g f n h k l = k e t ∙ h
  settle-locks (fault x, t) g f n h k l = h

  deferring-locks :
      {A : Type 0} (r : Result A × Thread O) (m : Exec O (Unit {0})) (n : ℕ)
      → locks_of r.1 ≡ n
      → locks_of (deferring r (on_thread m)).1 ≡ n
  deferring-locks (ok a, t) m n h = h
  deferring-locks (err e, t) m n h = h
  deferring-locks (fault x, t) m n h = h

  drop-locks : (r : Result (Unit {0}) × Thread O) → locks_of (drop_error r).1 ≡ locks_of r.1
  drop-locks (ok a, t) = refl
  drop-locks (err e, t) = refl
  drop-locks (fault x, t) = refl

module _ {O Ns Conn : Type 0} (viper : Viper) (netns : Netns O Ns) (current : Ns)
    (dialer : Dialer O Conn) where
  exchange-locks :
      (path : String) (conn : Conn) (t : Thread O)
      → locks_of (exchange viper netns current dialer path conn t).1 ≡ locks_of t
  unfolding exchange
  exchange-locks path conn t =
      continue-keeps locks_of (drop_error (on_thread (dialer.fprintf conn _) t)) _
        (drop-locks (on_thread (dialer.fprintf conn _) t))
        (λ _ t2.
          settle-locks (on_thread (dialer.read_response conn) t2) _ _ (locks_of t2) refl
            (λ _ _. refl) (λ _ _. refl))

  with_connection-locks :
      (port : ℕ) (body : Conn → Exec (Thread O) Bool) (t : Thread O)
      → ((conn : Conn) (x : Thread O) → locks_of (body conn x).1 ≡ locks_of x)
      → locks_of (with_connection viper netns current dialer port body t).1 ≡ locks_of t
  with_connection-locks port body t h =
      settle-locks (on_thread (dialer.dial _) t) _ _ (locks_of t) refl (λ _ _. refl)
        (λ conn x. deferring-locks (body conn x) (dialer.close conn) (locks_of x) (h conn x))

  module _ (at : O → Ns) (L : IsNetns netns current at) where
    entered-locks :
        (pid : ℕ) (probe : Exec (Thread O) Bool) (t : Thread O)
        → ((x : Thread O) → locks_of (probe x).1 ≡ locks_of x)
        → locks_of (entered viper netns current dialer pid probe t).1 ≡ locks_of t + 1
    unfolding entered
    entered-locks pid probe t h =
        settle-locks (enter_network_namespace viper netns current pid t) _ _ (locks_of t + 1)
          (enter-locks viper netns current at L pid t) (λ _ _. refl) (λ _ x. h x)

    in_network-home :
        (task : TaskInfo) (pid : ℕ) (probe : Exec (Thread O) Bool) (t t' : Thread O)
        (healthy : Bool)
        → ((x : Thread O) → locks_of (probe x).1 ≡ locks_of x)
        → get_network task ≡ bridge
        → in_network viper netns current dialer task pid probe t ≡ (ok healthy, t')
        → (at t'.outside ≡ current) × (locks_of t' ≡ locks_of t)
    unfolding in_network
    in_network-home task pid probe t t' healthy h net p =
        deferring-exit viper netns current at L (entered viper netns current dialer pid probe t)
          (locks_of t) healthy t' (entered-locks pid probe t h)
          (subst
            (λ n.
              elim n [
                | bridge ↦
                    deferring (entered viper netns current dialer pid probe t)
                      (exit_network_namespace viper netns current)
                | _ ↦ probe t
              ]
              ≡ (ok healthy, t'))
            net p)

    -- After an HTTP check of a task on a bridge network that gives a result, healthy or not, on
    -- whichever way out of the check: the thread is in the executor's namespace and holds as many
    -- locks as before. The switch back to the executor's namespace is assumed to succeed.
    pub check_http-home :
        (task : TaskInfo) (pid : ℕ) (t t' : Thread O) (healthy : Bool)
        → get_network task ≡ bridge
        → check_http viper netns current dialer task pid t ≡ (ok healthy, t')
        → (at t'.outside ≡ current) × (t'.locks ≡ t.locks)
    unfolding check_http probe_http
    check_http-home task pid t t' healthy net p =
        in_network-home task pid (probe_http viper netns current dialer task) t t' healthy
          (λ x. with_connection-locks _ _ x (λ conn y. exchange-locks _ conn y)) net p

    -- After a TCP check of a task on a bridge network that gives a result, healthy or not, on
    -- whichever way out of the check: the thread is in the executor's namespace and holds as many
    -- locks as before. The switch back to the executor's namespace is assumed to succeed.
    pub check_tcp-home :
        (task : TaskInfo) (pid : ℕ) (t t' : Thread O) (healthy : Bool)
        → get_network task ≡ bridge
        → check_tcp viper netns current dialer task pid t ≡ (ok healthy, t')
        → (at t'.outside ≡ current) × (t'.locks ≡ t.locks)
    unfolding check_tcp probe_tcp
    check_tcp-home task pid t t' healthy net p =
        in_network-home task pid (probe_tcp viper netns current dialer task) t t' healthy
          (λ x. with_connection-locks _ (λ conn. pure true) x (λ conn y. refl)) net p
