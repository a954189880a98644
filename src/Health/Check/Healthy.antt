-- ===== src/Health/Check/Healthy.antt =====
-- When an HTTP check (healthcheck/healthcheck.go) calls a task healthy.
use go_mesos_executor.Common.{◌≡◌, refl, ap, ℕ, ◌<>◌, Bool, true, false, leb, ◌&&◌, ◌≤◌, arith}
use go_mesos_executor.Common.Exec.{
  Exec, Result, ok, err, fault, pure, settle, Went, continue-ok, drop_error,
}
use go_mesos_executor.Common.Text.{itoa}
use go_mesos_executor.Mesos.{
  TaskInfo, Network, host, bridge, no_network, user, other_network, get_network,
}
use go_mesos_executor.Namespace.{
  Netns, Thread, on_thread, deferring, enter_network_namespace, exit_network_namespace,
}
use go_mesos_executor.Namespace.Return.{deferring-ok}
use go_mesos_executor.Health.Check.{
  Dialer, http_port, http_of, exchange, probe_http, entered, in_network, check_http,
}
use go_mesos_executor.Outside.{Viper}

module _ {S A : Type 0} where
  -- A step whose error means unhealthy, before a healthy answer.
  settle-true :
      (r : Result A × S) (f : A → Exec S Bool) (s' : S)
      → settle r (λ _. pure false) f ≡ (ok true, s')
      → Went r f true s'
  settle-true (ok a, s) f s' p = record { value = a; state = s; first = refl; second = p }
  settle-true (err e, s) f s' p = absurd (cc p)
  settle-true (fault x, s) f s' p = absurd (cc p)

module _ {O Ns Conn : Type 0} (viper : Viper) (netns : Netns O Ns) (current : Ns)
    (dialer : Dialer O Conn) where
  -- A connection was made to the task's port, and a response with a status from 200 to 399 read.
  pub record Answered (task : TaskInfo) : Type 0 where
    pub conn : Conn
    pub code : ℕ
    pub before : O
    pub dialed : O
    pub requested : O
    pub answered : O
    pub dials :
        dialer.dial ("localhost:" <> itoa (http_port (http_of task.health_check))) before
        ≡ (ok conn, dialed)
    pub reads : dialer.read_response conn requested ≡ (ok code, answered)
    pub from_200 : 200 ≤ code
    pub to_399 : code ≤ 399

  accepted :
      (code : ℕ) (t t' : Thread O)
      → pure (leb 200 code && leb code 399) t ≡ (ok true, t')
      → (200 ≤ code) × (code ≤ 399)
  accepted code t t' p =
      let h : (leb 200 code && leb code 399) ≡ true = cc p in (ground (arith, h), ground (arith, h))

  probe_http-Answered :
      (task : TaskInfo) (t t' : Thread O)
      → probe_http viper netns current dialer task t ≡ (ok true, t')
      → Answered task
  unfolding probe_http exchange
  probe_http-Answered task t t' p =
      let w = settle-true (on_thread (dialer.dial _) t) _ t' p in
      let (x, went) =
        deferring-ok (exchange viper netns current dialer _ w.value w.state) _ true t' w.second in
      let v =
        continue-ok (drop_error (on_thread (dialer.fprintf w.value _) w.state)) _ true x went in
      let u = settle-true (on_thread (dialer.read_response w.value) v.state) _ x v.second in
      let good = accepted u.value u.state x u.second in
      record {
        conn = w.value;
        code = u.value;
        before = t.outside;
        dialed = w.state.outside;
        requested = v.state.outside;
        answered = u.state.outside;
        dials = ap (λ (y : Result Conn × Thread O). (y.0, y.1.outside)) w.first;
        reads = ap (λ (y : Result ℕ × Thread O). (y.0, y.1.outside)) u.first;
        from_200 = good.0;
        to_399 = good.1;
      }

  in_network-true :
      (n : Network) (task : TaskInfo) (pid : ℕ) (t t' : Thread O)
      → elim n [
        | bridge ↦
            deferring
              (entered viper netns current dialer pid
                (probe_http viper netns current dialer task)
                t)
              (exit_network_namespace viper netns current)
        | _ ↦ probe_http viper netns current dialer task t
      ]
        ≡ (ok true, t')
      → Answered task
  unfolding entered
  in_network-true host task pid t t' p = probe_http-Answered task t t' p
  in_network-true bridge task pid t t' p =
      let (x, went) =
        deferring-ok
          (entered viper netns current dialer pid (probe_http viper netns current dialer task) t)
          (exit_network_namespace viper netns current) true t' p in
      let w = settle-true (enter_network_namespace viper netns current pid t) _ x went in
      probe_http-Answered task w.state x w.second
  in_network-true no_network task pid t t' p = probe_http-Answered task t t' p
  in_network-true user task pid t t' p = probe_http-Answered task t t' p
  in_network-true (other_network k) task pid t t' p = probe_http-Answered task t t' p

  -- An HTTP check that calls a task healthy, on whatever network, has connected to the port of the
  -- check on localhost and read a response from that connection, with a status of at least 200 and
  -- at most 399.
  pub check_http-Answered :
      (task : TaskInfo) (pid : ℕ) (t t' : Thread O)
      → check_http viper netns current dialer task pid t ≡ (ok true, t')
      → Answered task
  unfolding check_http in_network
  check_http-Answered task pid t t' p = in_network-true (get_network task) task pid t t' p
