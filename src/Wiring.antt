-- ===== src/Wiring.antt =====
-- main.go: the hooks of the program, registered one by one.
pub mod Flags
pub mod Program
use mathlib.Core.Logic.{ite}
use mathlib.Core.Path.{subst}
use mathlib.Core.List.{reverse, reverse-append, append_assoc, append-nil, filter-append, dec_mem}
use go_mesos_executor.Common.{
  ◌≡◌, refl, sym, ◌∙◌, ap, String, List, [], ◌∷◌, ◌++◌, All, All-append, String-discrete,
}
use go_mesos_executor.Common.Int.{pos}
use go_mesos_executor.Hook.{Hook, Manager, new_manager, register_hooks, sort_by_priority}
use go_mesos_executor.Hook.Acl.{acl_hook}
use go_mesos_executor.Hook.Iptables.{iptables_hook}
use go_mesos_executor.Hook.Netns.{netns_hook}
use go_mesos_executor.Hook.Network.{network_hook}
use go_mesos_executor.Hook.Remove.{remove_container_hook}
use go_mesos_executor.Hook.Order.{enabled_of, HasPriority, register_hooks-reverse}
use go_mesos_executor.Outside.{Viper, Net, Os, Iptables}

module _ {O : Type 0} where
  register_each : List (Hook O) → Manager O → Manager O
  register_each [] m = m
  register_each (h ∷ hs) m = register_each hs (register_hooks (h ∷ []) m)

  -- The hooks of `Run` in main.go, in the order of their registration.
  unfoldable pub main_manager : Viper → Net → Os O → Iptables O → List String → Manager O
  unfolding register_each
  main_manager viper net os driver hooks =
      register_each
        (acl_hook viper net driver
          ∷ iptables_hook viper driver
          ∷ netns_hook viper os
          ∷ remove_container_hook
          ∷ network_hook
          ∷ [])
        (new_manager hooks)

  abbrev Zero : Hook O → Type 0
  Zero = HasPriority (pos 0)

  abbrev one : List String → Hook O → List (Hook O)
  one names h = enabled_of names (h ∷ [])

  -- None or one hook.
  kept-All : {P : Type 0} (d : Dec P) (h : Hook O) → Zero h → All Zero (ite d (h ∷ []) [])
  kept-All (yes p) h z = (z, tt)
  kept-All (no n) h z = tt

  kept-reverse :
      {P : Type 0} (d : Dec P) (h : Hook O) → reverse (ite d (h ∷ []) []) ≡ ite d (h ∷ []) []
  kept-reverse (yes p) h = refl
  kept-reverse (no n) h = refl

  one-reverse : (names : List String) (h : Hook O) → reverse (one names h) ≡ one names h
  one-reverse names h = kept-reverse (dec_mem String-discrete h.name names) h

  All-reverse : (xs : List (Hook O)) → All Zero xs → All Zero (reverse xs)
  All-reverse [] a = tt
  All-reverse (x ∷ xs) a =
      subst (λ l. All Zero l) (sym (reverse-append (x ∷ []) xs))
        (All-append Zero (reverse xs) (x ∷ []) (All-reverse xs a.1) (a.0, tt))

  -- One registration of one hook of priority 0 among such.
  register_one :
      (h : Hook O) (m : Manager O)
      → Zero h
      → All Zero m.hooks
      → ((register_hooks (h ∷ []) m).hooks ≡ one m.enabled_hooks h ++ reverse m.hooks)
        × All Zero (register_hooks (h ∷ []) m).hooks
        × ((register_hooks (h ∷ []) m).enabled_hooks ≡ m.enabled_hooks)
  unfolding register_hooks sort_by_priority
  register_one h m z a =
      let all =
        All-append Zero m.hooks (one m.enabled_hooks h) a
          (kept-All (dec_mem String-discrete h.name m.enabled_hooks) h z) in
      let e = register_hooks-reverse (pos 0) (h ∷ []) m all in
      (
        e
            ∙ reverse-append m.hooks (one m.enabled_hooks h)
            ∙ ap (λ l. l ++ reverse m.hooks) (one-reverse m.enabled_hooks h),
        subst (λ l. All Zero l) (sym e) (All-reverse (m.hooks ++ one m.enabled_hooks h) all),
        refl,
      )

  enabled_of-cons :
      (names : List String) (h : Hook O) (hs : List (Hook O))
      → enabled_of names (h ∷ hs) ≡ one names h ++ enabled_of names hs
  enabled_of-cons names h hs =
      filter-append (λ (x : Hook O). dec_mem String-discrete x.name names) (h ∷ []) hs

  module _ (names : List String) (h1 h2 h3 h4 h5 : Hook O) where
    reverse_two : reverse (one names h2 ++ one names h1) ≡ one names h1 ++ one names h2
    reverse_two = simp (reverse-append, one-reverse names h1, one-reverse names h2)

    reverse_three :
        reverse (one names h3 ++ (one names h1 ++ one names h2))
        ≡ one names h2 ++ (one names h1 ++ one names h3)
    reverse_three = simp (
      reverse-append,
      one-reverse names h1,
      one-reverse names h2,
      one-reverse names h3,
      append_assoc,
    )

    reverse_four :
        reverse (one names h4 ++ (one names h2 ++ (one names h1 ++ one names h3)))
        ≡ one names h3 ++ (one names h1 ++ (one names h2 ++ one names h4))
    reverse_four = simp (
      reverse-append,
      one-reverse names h1,
      one-reverse names h2,
      one-reverse names h3,
      one-reverse names h4,
      append_assoc,
    )

    register_five :
        Zero h1
        → Zero h2
        → Zero h3
        → Zero h4
        → Zero h5
        → (register_each (h1 ∷ h2 ∷ h3 ∷ h4 ∷ h5 ∷ []) (new_manager names)).hooks
          ≡ enabled_of names (h5 ∷ h3 ∷ h1 ∷ h2 ∷ h4 ∷ [])
    unfolding register_each register_hooks sort_by_priority new_manager
    register_five z1 z2 z3 z4 z5 =
        let m0 : Manager O = new_manager names in
        let m1 = register_hooks (h1 ∷ []) m0 in
        let m2 = register_hooks (h2 ∷ []) m1 in
        let m3 = register_hooks (h3 ∷ []) m2 in
        let m4 = register_hooks (h4 ∷ []) m3 in
        let r1 = register_one h1 m0 z1 tt in
        let r2 = register_one h2 m1 z2 r1.1 in
        let r3 = register_one h3 m2 z3 r2.1 in
        let r4 = register_one h4 m3 z4 r3.1 in
        let r5 = register_one h5 m4 z5 r4.1 in
        let e1 : m1.hooks ≡ one names h1 = r1.0 ∙ append-nil (one names h1) in
        let e2 : m2.hooks ≡ one names h2 ++ one names h1 =
          r2.0 ∙ ap (λ l. one names h2 ++ l) (ap reverse e1 ∙ one-reverse names h1) in
        let e3 : m3.hooks ≡ one names h3 ++ (one names h1 ++ one names h2) =
          r3.0 ∙ ap (λ l. one names h3 ++ l) (ap reverse e2 ∙ reverse_two) in
        let e4 : m4.hooks ≡ one names h4 ++ (one names h2 ++ (one names h1 ++ one names h3)) =
          r4.0 ∙ ap (λ l. one names h4 ++ l) (ap reverse e3 ∙ reverse_three) in
        r5.0
        ∙ ap (λ l. one names h5 ++ l) (ap reverse e4 ∙ reverse_four)
        ∙ sym (
            enabled_of-cons names h5 (h3 ∷ h1 ∷ h2 ∷ h4 ∷ [])
            ∙ ap (λ l. one names h5 ++ l)
                (enabled_of-cons names h3 (h1 ∷ h2 ∷ h4 ∷ [])
                  ∙ ap (λ l. one names h3 ++ l)
                      (enabled_of-cons names h1 (h2 ∷ h4 ∷ [])
                        ∙ ap (λ l. one names h1 ++ l) (enabled_of-cons names h2 (h4 ∷ [])))))

  -- Whichever hooks the configuration enables, the manager of the program keeps those that are
  -- enabled in the order network, netns, acl, iptables, removeContainer, each once.
  pub main_manager-enabled_of :
      (viper : Viper) (net : Net) (os : Os O) (driver : Iptables O) (names : List String)
      → (main_manager viper net os driver names).hooks
        ≡ enabled_of names (
            network_hook
            ∷ netns_hook viper os
            ∷ acl_hook viper net driver
            ∷ iptables_hook viper driver
            ∷ remove_container_hook
            ∷ [])
  unfolding main_manager network_hook netns_hook acl_hook iptables_hook remove_container_hook
  main_manager-enabled_of viper net os driver names =
      register_five names (acl_hook viper net driver) (iptables_hook viper driver)
        (netns_hook viper os) remove_container_hook network_hook refl refl refl refl refl
