-- ===== src/Hook/Order.antt =====
-- The order in which hook/hook_manager.go keeps the hooks.
use mathlib.Core.Bool.{Bool-set}
use mathlib.Core.Logic.{if_pos, if_neg}
use mathlib.Core.Logic.Or
use mathlib.Core.List.{
  foldl, filter, reverse, Mem, mem-cons, not-mem-nil, dec_mem, Pairwise, Pairwise-reverse, Perm,
  perm_middle, reverse_perm, append_assoc, append-nil,
}
use mathlib.Core.List.Perm
use native.Mathlib.Bridge.{le_prop}
use go_mesos_executor.Common.{
  length, ◌≤◌, ◌≡◌, refl, sym, ◌∙◌, ap, String, true, false, inl, inr, List, [], ◌∷◌, ◌++◌, arith,
  All, All-append, Bool-cases, str_eq, eq_iff, String-discrete,
}
use go_mesos_executor.Common.Int.{ℤ, ◌≤ℤ◌, ≤ℤ_trans}
use go_mesos_executor.Hook.{
  Hook, Manager, contains, sink, sort, by_priority, append_enabled, register_hooks,
}

contains-mem : (names : List String) (k : String) → contains names k ≡ true → Mem k names
contains-mem [] k h = cc
contains-mem (x ∷ xs) k h = elim (Bool-cases (str_eq x k)) [
  | inl same ↦ mem-cons.1 (Or.inl (sym ((eq_iff x k).0 same)))
  | inr differ ↦ mem-cons.1 (Or.inr (contains-mem xs k (rw differ at h)))
]

contains_of_mem : (names : List String) (k : String) → Mem k names → contains names k ≡ true
contains_of_mem [] k m = absurd (not-mem-nil m)
contains_of_mem (x ∷ xs) k m = elim (Bool-cases (str_eq x k)) [
  | inl same ↦ rw same
  | inr differ ↦ rw differ (
      Or.elim (Bool-set _ _) (mem-cons.0 m) (λ e. absurd (ground (arith, eq_iff x k)))
        (contains_of_mem xs k))
]

contains_of_not_mem : (names : List String) (k : String) → ¬ Mem k names → contains names k ≡ false
contains_of_not_mem names k n = elim (Bool-cases (contains names k)) [
  | inl e ↦ absurd (n (contains-mem names k e))
  | inr e ↦ e
]

module _ {O : Type 0} where
  abbrev LeastFirst : List (Hook O) → Type 0
  LeastFirst [] = Unit
  LeastFirst (h ∷ hs) = All (λ g. h.priority ≤ℤ g.priority) hs × LeastFirst hs

  All-imp :
      (P Q : Hook O → Type 0)
      → ((g : Hook O) → P g → Q g)
      → (hs : List (Hook O)) → All P hs
      → All Q hs
  All-imp P Q f [] a = tt
  All-imp P Q f (h ∷ hs) a = (f h a.0, All-imp P Q f hs a.1)

  All-sink :
      (P : Hook O → Type 0) (h : Hook O) (gs : List (Hook O))
      → P h
      → All P gs
      → All P (sink by_priority h gs)
  unfolding sink
  All-sink P h [] p a = (p, tt)
  All-sink P h (g ∷ gs) p a = elim (Bool-cases (by_priority h g)) [
    | inl less ↦ rw less (a.0, All-sink P h gs p a.1)
    | inr stop ↦ rw stop (p, a)
  ]

  by_priority-true : (h g : Hook O) → by_priority h g ≡ true → g.priority ≤ℤ h.priority
  unfolding by_priority
  by_priority-true h g e = ground arith

  by_priority-false : (h g : Hook O) → by_priority h g ≡ false → h.priority ≤ℤ g.priority
  unfolding by_priority
  by_priority-false h g e = ground arith

  sink-LeastFirst :
      (h : Hook O) (gs : List (Hook O)) → LeastFirst gs → LeastFirst (sink by_priority h gs)
  unfolding sink
  sink-LeastFirst h [] l = (tt, tt)
  sink-LeastFirst h (g ∷ gs) l = elim (Bool-cases (by_priority h g)) [
    | inl less ↦ rw less (
      All-sink (λ x. g.priority ≤ℤ x.priority) h gs (by_priority-true h g less) l.0,
      sink-LeastFirst h gs l.1,
    )
    | inr stop ↦ rw stop (
      (
        by_priority-false h g stop,
        All-imp _ _
            (λ x k. ≤ℤ_trans h.priority g.priority x.priority (by_priority-false h g stop) k) gs
            l.0,
      ),
      l,
    )
  ]

  foldl-LeastFirst :
      (hs acc : List (Hook O))
      → LeastFirst acc
      → LeastFirst (foldl (λ sorted h. sink by_priority h sorted) acc hs)
  foldl-LeastFirst [] acc l = l
  foldl-LeastFirst (h ∷ hs) acc l = foldl-LeastFirst hs _ (sink-LeastFirst h acc l)

  of_All :
      (h : Hook O) (hs : List (Hook O))
      → All (λ g. h.priority ≤ℤ g.priority) hs
      → (g : Hook O) → Mem g hs
      → h.priority ≤ℤ g.priority
  of_All h [] a g m = absurd (not-mem-nil m)
  of_All h (x ∷ hs) a g m = Or.elim le_prop (mem-cons.0 m) (λ e. rw e a.0) (of_All h hs a.1 g)

  abbrev pub LowerPriority : Hook O → Hook O → Type 0
  LowerPriority g h = h.priority ≤ℤ g.priority

  LeastFirst→Pairwise :
      (hs : List (Hook O)) → LeastFirst hs → Pairwise (λ a b. LowerPriority b a) hs
  LeastFirst→Pairwise [] l = Pairwise.nil
  LeastFirst→Pairwise (h ∷ hs) l = Pairwise.cons (of_All h hs l.0) (LeastFirst→Pairwise hs l.1)

  sort-Pairwise : (hs : List (Hook O)) → Pairwise LowerPriority (sort by_priority hs)
  unfolding sort
  sort-Pairwise hs =
      (Pairwise-reverse (λ a b. le_prop)).1 (LeastFirst→Pairwise _ (foldl-LeastFirst hs [] tt))

  register_hooks-Pairwise :
      (hs : List (Hook O)) (m : Manager O) → Pairwise LowerPriority (register_hooks hs m).hooks
  unfolding register_hooks
  register_hooks-Pairwise hs m = sort-Pairwise (append_enabled m.enabled_hooks m.hooks hs)

  sink-perm : (h : Hook O) (gs : List (Hook O)) → Perm (sink by_priority h gs) (h ∷ gs)
  unfolding sink
  sink-perm h [] = Perm.refl _
  sink-perm h (g ∷ gs) = elim (Bool-cases (by_priority h g)) [
    | inl less ↦ rw less (Perm.trans (Perm.cons g (sink-perm h gs)) (Perm.swap h g gs))
    | inr stop ↦ rw stop (Perm.refl _)
  ]

  foldl-perm :
      (hs acc : List (Hook O))
      → Perm (foldl (λ sorted h. sink by_priority h sorted) acc hs) (acc ++ hs)
  foldl-perm [] acc = rw append-nil (Perm.refl acc)
  foldl-perm (h ∷ hs) acc =
      Perm.trans (foldl-perm hs (sink by_priority h acc))
        (Perm.trans (Perm.append (sink-perm h acc) (Perm.refl hs)) (Perm.symm (perm_middle acc hs)))

  sort-perm : (hs : List (Hook O)) → Perm (sort by_priority hs) hs
  unfolding sort
  sort-perm hs = Perm.trans (reverse_perm _) (foldl-perm hs [])

  -- The hooks of a list whose names are enabled.
  abbrev pub enabled_of : List String → List (Hook O) → List (Hook O)
  enabled_of names = filter (λ h. dec_mem String-discrete h.name names)

  append_enabled_lem :
      (names : List String) (hooks hs : List (Hook O))
      → append_enabled names hooks hs ≡ hooks ++ enabled_of names hs
  unfolding append_enabled
  append_enabled_lem names hooks [] = sym (append-nil hooks)
  append_enabled_lem names hooks (h ∷ hs) = elim (dec_mem String-discrete h.name names) [
    | yes m ↦
        rw
          (
            if_pos _ m,
            contains_of_mem names h.name m,
            append_enabled_lem names (hooks ++ h ∷ []) hs,
          )
          (append_assoc hooks (h ∷ []) (enabled_of names hs))
    | no n ↦ rw (if_neg _ n, contains_of_not_mem names h.name n) (append_enabled_lem names hooks hs)
  ]

  register_hooks-perm :
      (hs : List (Hook O)) (m : Manager O)
      → Perm (register_hooks hs m).hooks (m.hooks ++ enabled_of m.enabled_hooks hs)
  unfolding register_hooks
  register_hooks-perm hs m =
      rw append_enabled_lem (sort-perm (m.hooks ++ enabled_of m.enabled_hooks hs))

  -- After any registration the hooks stand in descending order of priority, whatever the order was
  -- before: no hook has a lower priority than one that stands behind it. They are, up to their
  -- order, those from before and those of the new ones whose name is enabled, each as often as it
  -- was given.
  pub register_hooks-Sorted :
      (hs : List (Hook O)) (m : Manager O)
      → Pairwise LowerPriority (register_hooks hs m).hooks
        × Perm (register_hooks hs m).hooks (m.hooks ++ enabled_of m.enabled_hooks hs)
  register_hooks-Sorted hs m = (register_hooks-Pairwise hs m, register_hooks-perm hs m)

  by_priority_of_eq : (h g : Hook O) → g.priority ≡ h.priority → by_priority h g ≡ true
  unfolding by_priority
  by_priority_of_eq h g e = ground arith

  abbrev pub HasPriority : ℤ → Hook O → Type 0
  HasPriority p h = h.priority ≡ p

  sink_of_All :
      (p : ℤ) (h : Hook O) (gs : List (Hook O))
      → HasPriority p h
      → All (HasPriority p) gs
      → sink by_priority h gs ≡ gs ++ (h ∷ [])
  unfolding sink
  sink_of_All p h [] q a = refl
  sink_of_All p h (g ∷ gs) q a = rw (by_priority_of_eq h g (a.0 ∙ sym q), sink_of_All p h gs q a.1)

  foldl_of_All :
      (p : ℤ) (hs acc : List (Hook O))
      → All (HasPriority p) acc
      → All (HasPriority p) hs
      → foldl (λ sorted h. sink by_priority h sorted) acc hs ≡ acc ++ hs
  foldl_of_All p [] acc a b = sym (append-nil acc)
  foldl_of_All p (h ∷ hs) acc a b = rw (sink_of_All p h acc b.0 a) (
      foldl_of_All p hs (acc ++ (h ∷ [])) (All-append (HasPriority p) acc (h ∷ []) a (b.0, tt)) b.1
      ∙ append_assoc acc (h ∷ []) hs)

  -- The insertion sort of `register_hooks`, on hooks of one priority; the bound of `sort.Sort` is in
  -- the theorem that follows.
  pub register_hooks-reverse :
      (p : ℤ) (hs : List (Hook O)) (m : Manager O)
      → All (HasPriority p) (m.hooks ++ enabled_of m.enabled_hooks hs)
      → (register_hooks hs m).hooks ≡ reverse (m.hooks ++ enabled_of m.enabled_hooks hs)
  unfolding register_hooks
  register_hooks-reverse p hs m a = rw append_enabled_lem (ap reverse (foldl_of_All p _ [] tt a))

  -- Up to six hooks of one priority, where `sort.Sort` is an insertion sort: each registration turns
  -- the whole slice round, so that what is registered last runs first, and the order of the others
  -- is reversed.
  pub register_hooks_of_eq :
      (p : ℤ) (hs : List (Hook O)) (m : Manager O)
      → All (HasPriority p) (m.hooks ++ enabled_of m.enabled_hooks hs)
      → length (m.hooks ++ enabled_of m.enabled_hooks hs) ≤ 6
      → (register_hooks hs m).hooks ≡ reverse (m.hooks ++ enabled_of m.enabled_hooks hs)
  register_hooks_of_eq p hs m a few = register_hooks-reverse p hs m a
