-- ===== src/Container/Docker/Addresses/Found.antt =====
-- What the search for addresses (container/docker.go) returns, and where it leaves the thread.
use go_mesos_executor.Common.{
  ◌≡◌, refl, sym, ◌∙◌, ap, ◌+◌, ◌⊎◌, inl, inr, ℕ, String, Bool, true, false, Option, none, some,
  List, [], ◌∷◌, All, All-append, if◌then◌else◌,
}
use mathlib.Core.Path.{subst}
use go_mesos_executor.Common.Exec.{Result, ok, err, fault, drop_error, continue-ok, continue-keeps}
use go_mesos_executor.Container.{Ip}
use go_mesos_executor.Container.Docker.{DockerClient}
use go_mesos_executor.Container.Docker.Addresses.{
  Interfaces, asserted, addr_loop, interface_loop, host_loop, searched, search,
  container_get_ips_by_interface,
}
use go_mesos_executor.Namespace.{
  Netns, Thread, on_thread, enter_network_namespace, exit_network_namespace,
}
use go_mesos_executor.Namespace.Return.{IsNetns, enter-locks, deferring-ok, deferring-exit}
use go_mesos_executor.Outside.{Viper}

module _ {O : Type 0} (P : Ip → Type 0) where
  pure-All :
      {l ips : List Ip} {o o' : O}
      → ◌≡◌ {A = Result (List Ip) × O} (ok l, o) (ok ips, o')
      → All P l
      → All P ips
  pure-All {l} {ips} p h = subst (λ x. All P x) (cc p) h

All-map : (P Q : Ip → Type 0) (xs : List Ip) → ((x : Ip) → P x → Q x) → All P xs → All Q xs
All-map P Q [] f h = tt
All-map P Q (x ∷ xs) f h = (f x h.0, All-map P Q xs f h.1)

module _ {O Interface Addr IpNet : Type 0} (net : Interfaces O Interface Addr IpNet) where
  -- The address is in the network of one of these addresses.
  abbrev pub InSome : List Addr → Ip → Type 0
  InSome [] ip = ⊥
  InSome (h ∷ hs) ip =
      ((n : IpNet) × (net.ip_net h ≡ some n) × (net.contains n ip ≡ true)) ⊎ InSome hs ip

  abbrev In : IpNet → Ip → Type 0
  In n ip = net.contains n ip ≡ true

  keep-In :
      (b : Bool) (n : IpNet) (ip : Ip) (rest : List Ip)
      → net.contains n ip ≡ b
      → All (In n) rest
      → All (In n) (if b then ip ∷ rest else rest)
  keep-In true n ip rest e h = (e, h)
  keep-In false n ip rest e h = h

  addr_loop-In :
      (n : IpNet) (xs : List Addr) (o o' : O) (ips : List Ip)
      → addr_loop net n xs o ≡ (ok ips, o')
      → All (In n) ips
  unfolding addr_loop
  addr_loop-In n [] o o' ips p = pure-All (In n) p tt
  addr_loop-In n (a ∷ xs) o o' ips p =
      let w = continue-ok (asserted net _ (net.ip_net a) o) _ ips o' p in
      let v = continue-ok (addr_loop net n xs w.state) _ ips o' w.second in
      pure-All (In n) v.second (
        keep-In (net.contains n (net.ip w.value)) n (net.ip w.value) v.value refl
          (addr_loop-In n xs w.state v.state v.value v.first))

  interface_loop-In :
      (n : IpNet) (is : List Interface) (o o' : O) (ips : List Ip)
      → interface_loop net n is o ≡ (ok ips, o')
      → All (In n) ips
  unfolding interface_loop
  interface_loop-In n [] o o' ips p = pure-All (In n) p tt
  interface_loop-In n (i ∷ is) o o' ips p =
      let w = continue-ok (net.addrs i o) _ ips o' p in
      let v = continue-ok (addr_loop net n w.value w.state) _ ips o' w.second in
      let u = continue-ok (interface_loop net n is v.state) _ ips o' v.second in
      pure-All (In n) u.second (
        All-append (In n) v.value u.value (addr_loop-In n w.value w.state v.state v.value v.first)
          (interface_loop-In n is v.state u.state u.value u.first))

  asserted-some :
      (text : String) (x : Option IpNet) (o o' : O) (n : IpNet)
      → asserted net text x o ≡ (ok n, o')
      → x ≡ some n
  unfolding asserted
  asserted-some text none o o' n p = absurd (cc p)
  asserted-some text (some m) o o' n p = cc p

  host_loop-InSome :
      (hosts : List Addr) (o o' : O) (ips : List Ip)
      → host_loop net hosts o ≡ (ok ips, o')
      → All (InSome hosts) ips
  unfolding host_loop
  host_loop-InSome [] o o' ips p = pure-All (InSome []) p tt
  host_loop-InSome (h ∷ hs) o o' ips p =
      let w = continue-ok (asserted net _ (net.ip_net h) o) _ ips o' p in
      let v = continue-ok (net.interfaces w.state) _ ips o' w.second in
      let u = continue-ok (interface_loop net w.value v.value v.state) _ ips o' v.second in
      let z = continue-ok (host_loop net hs u.state) _ ips o' u.second in
      pure-All (InSome (h ∷ hs)) z.second (
        All-append (InSome (h ∷ hs)) u.value z.value
          (All-map (In w.value) (InSome (h ∷ hs)) u.value
            (λ ip inside.
              inl (w.value, asserted-some _ (net.ip_net h) o w.state w.value w.first, inside))
            (interface_loop-In w.value v.value v.state u.state u.value u.first))
          (All-map (InSome hs) (InSome (h ∷ hs)) z.value (λ ip inside. inr inside)
            (host_loop-InSome hs u.state z.state z.value z.first)))

  module _ {Ns : Type 0} (viper : Viper) (netns : Netns O Ns) (current : Ns)
      (client : DockerClient O) where
    -- What a search that succeeded returns, and where it ended.
    pub record Found (at : O → Ns) (name : String) (t t' : Thread O) (ips : List Ip) : Type 0 where
      pub interface : Interface
      pub hosts : List Addr
      pub inspected : O
      pub named : O
      pub listed : O
      pub by_name : net.interface_by_name name inspected ≡ (ok interface, named)
      pub by_interface : net.addrs interface named ≡ (ok hosts, listed)
      pub inside : All (InSome hosts) ips
      pub home : at t'.outside ≡ current
      pub locks : t'.locks ≡ t.locks

    module _ (at : O → Ns) (L : IsNetns netns current at) where
      searched-locks :
          (pid : ℕ) (hosts : List Addr) (t : Thread O)
          → (searched net viper netns current client pid hosts t).1.locks ≡ t.locks + 1
      unfolding searched
      searched-locks pid hosts t =
          continue-keeps (λ (x : Thread O). x.locks)
            (drop_error (enter_network_namespace viper netns current pid t)) _
            (dropped (enter_network_namespace viper netns current pid t)
              ∙ enter-locks viper netns current at L pid t)
            (λ _ _. refl)
        where
          dropped : (r : Result (Unit {0}) × Thread O) → (drop_error r).1.locks ≡ r.1.locks
          dropped (ok u, x) = refl
          dropped (err e, x) = refl
          dropped (fault f, x) = refl

      searched-InSome :
          (pid : ℕ) (hosts : List Addr) (t x : Thread O) (ips : List Ip)
          → searched net viper netns current client pid hosts t ≡ (ok ips, x)
          → All (InSome hosts) ips
      unfolding searched
      searched-InSome pid hosts t x ips p =
          let w =
            continue-ok (drop_error (enter_network_namespace viper netns current pid t)) _ ips x
              p in
          host_loop-InSome hosts w.state.outside x.outside ips
            (ap (λ (r : Result (List Ip) × Thread O). (r.0, r.1.outside)) w.second)

      search-home :
          (pid : ℕ) (hosts : List Addr) (t t' : Thread O) (ips : List Ip)
          → search net viper netns current client pid hosts t ≡ (ok ips, t')
          → All (InSome hosts) ips × ((at t'.outside ≡ current) × (t'.locks ≡ t.locks))
      unfolding search
      search-home pid hosts t t' ips p =
          let (x, went) =
            deferring-ok (searched net viper netns current client pid hosts t)
              (exit_network_namespace viper netns current) ips t' p in
          (
            searched-InSome pid hosts t x ips went,
            deferring-exit viper netns current at L
                (searched net viper netns current client pid hosts t) t.locks ips t'
                (searched-locks pid hosts t) p,
          )

      -- A search for addresses that returns no error gives only addresses that are in the network
      -- of one of the addresses listed for the interface of that name; and it leaves the thread in the executor's
      -- namespace with as many locks as before, even where the container's namespace could not be
      -- entered. The switch back to the executor's namespace is assumed to succeed.
      pub container_get_ips_by_interface-Found :
          (id name : String) (t t' : Thread O) (ips : List Ip)
          → container_get_ips_by_interface net viper netns current client id name t ≡ (ok ips, t')
          → Found at name t t' ips
      unfolding container_get_ips_by_interface
      container_get_ips_by_interface-Found id name t t' ips p =
          let w = continue-ok (on_thread (client.inspect_pid id) t) _ ips t' p in
          let v = continue-ok (on_thread (net.interface_by_name name) w.state) _ ips t' w.second in
          let u = continue-ok (on_thread (net.addrs v.value) v.state) _ ips t' v.second in
          let f = search-home w.value u.value u.state t' ips u.second in
          record {
            interface = v.value;
            hosts = u.value;
            inspected = w.state.outside;
            named = v.state.outside;
            listed = u.state.outside;
            by_name = ap (λ (r : Result Interface × Thread O). (r.0, r.1.outside)) v.first;
            by_interface = ap (λ (r : Result (List Addr) × Thread O). (r.0, r.1.outside)) u.first;
            inside = f.0;
            home = f.1.0;
            locks =
                f.1.1
                ∙ sym (ap (λ (r : Result (List Addr) × Thread O). r.1.locks) u.first)
                ∙ sym (ap (λ (r : Result Interface × Thread O). r.1.locks) v.first)
                ∙ sym (ap (λ (r : Result ℕ × Thread O). r.1.locks) w.first);
          }
