-- ===== src/Hook.antt =====
-- hook/hook.go and hook/hook_manager.go: hooks, their registration in order of priority, and their
-- runs. What a hook changes through its pointers, the package variables of the hooks and the
-- outside are one state, `Shared`. The log is left out.
pub mod Order
pub mod Run
pub mod Remove
pub mod Network
pub mod Netns
pub mod Firewall
pub mod Iptables
pub mod Acl
pub mod Restore
use mathlib.Core.List.{foldl, reverse}
use go_mesos_executor.Common.{
  ℕ, String, Bool, true, false, not, Option, none, some, List, [], ◌∷◌, ◌++◌, str_eq, if◌then◌else◌,
}
use go_mesos_executor.Common.Exec.{GoError, errorf, ok, err, fault, Result, Exec, pure, raise}
use go_mesos_executor.Common.Int.{ℤ, ltb_ℤ}
use go_mesos_executor.Common.Table.{Table}
use go_mesos_executor.Container.{Containerizer, Ip}
use go_mesos_executor.Mesos.{TaskInfo, FrameworkInfo}

pub record Shared (O : Type 0) : Type 0 where
  pub task_info : TaskInfo
  pub framework_info : FrameworkInfo
  pub netns_hook_container_pid : ℕ
  pub netns_hook_symlink_path : String
  pub iptables_hook_container_ip_cache : Table (List Ip)
  pub outside : O

-- A hook function, past its pointers to the task and the framework.
abbrev pub Action : Type 0 → Type 0
Action O = Containerizer O → Exec (Shared O) (Unit {0})

-- A function field that may be nil is an `Option`. The text is the container's id.
pub record Hook (O : Type 0) : Type 0 where
  pub name : String
  pub priority : ℤ
  pub run_pre_create : Option (Action O)
  pub run_pre_run : Option (String → Action O)
  pub run_post_run : Option (String → Action O)
  pub run_pre_stop : Option (String → Action O)
  pub run_post_stop : Option (String → Action O)

pub record Manager (O : Type 0) : Type 0 where
  pub enabled_hooks : List String
  pub hooks : List (Hook O)

pub data When : Type 0 where
  pre_create pre_run post_run pre_stop post_stop : When
  other_when : String → When

abbrev pub contains : List String → String → Bool
contains [] k = false
contains (x ∷ xs) k = if str_eq x k then true else contains xs k

-- What the `switch` of `runHooks` finds: a `continue`, a return, or a call.
pub data Selected (O : Type 0) : Type 0 where
  absent unknown_when : Selected O
  chosen : Exec (Shared O) (Unit {0}) → Selected O

abbrev field : {O A : Type 0} → (A → Exec (Shared O) (Unit {0})) → Option A → Selected O
field call none = absent
field call (some f) = chosen (call f)

module _ {O : Type 0} where
  unfoldable pub new_manager : List String → Manager O
  new_manager hooks = record { enabled_hooks = hooks; hooks = [] }

  -- The inner loop of the insertion sort of `sort.Sort`: the last element goes left past each
  -- neighbour that it is less than. The sorted part is given from its end.
  unfoldable pub sink : (Hook O → Hook O → Bool) → Hook O → List (Hook O) → List (Hook O)
  sink less h [] = h ∷ []
  sink less h (g ∷ gs) = let rest = sink less h gs in if less h g then g ∷ rest else h ∷ g ∷ gs

  -- `sort.Sort` as it runs on up to six elements; the program registers five hooks.
  unfoldable pub sort : (Hook O → Hook O → Bool) → List (Hook O) → List (Hook O)
  unfolding sink
  sort less hooks = reverse (foldl (λ sorted h. sink less h sorted) [] hooks)

  unfoldable pub by_priority : Hook O → Hook O → Bool
  by_priority h1 h2 = not (ltb_ℤ h1.priority h2.priority)

  unfoldable pub sort_by_priority : Manager O → Manager O
  unfolding sort by_priority
  sort_by_priority m = record m { hooks = sort by_priority m.hooks }

  -- The loop of `RegisterHooks`.
  unfoldable pub append_enabled : List String → List (Hook O) → List (Hook O) → List (Hook O)
  append_enabled enabled hooks [] = hooks
  append_enabled enabled hooks (h ∷ hs) =
      append_enabled enabled (if contains enabled h.name then hooks ++ h ∷ [] else hooks) hs

  unfoldable pub register_hooks : List (Hook O) → Manager O → Manager O
  unfolding append_enabled sort_by_priority
  register_hooks hs m =
      sort_by_priority (record m { hooks = append_enabled m.enabled_hooks m.hooks hs })

  unfoldable pub select : When → Containerizer O → String → Hook O → Selected O
  select pre_create c id h = field (λ f. f c) h.run_pre_create
  select pre_run c id h = field (λ f. f id c) h.run_pre_run
  select post_run c id h = field (λ f. f id c) h.run_post_run
  select pre_stop c id h = field (λ f. f id c) h.run_pre_stop
  select post_stop c id h = field (λ f. f id c) h.run_post_stop
  select (other_when _) c id h = unknown_when

  -- What follows the `switch`: an error ends the loop, or the loop goes on.
  abbrev pub after_hook :
      Bool
      → Result (Unit {0}) × Shared O
      → Exec (Shared O) (Unit {0})
      → Result (Unit {0}) × Shared O
  after_hook exit (ok _, s) rest = rest s
  after_hook true (err e, s) rest = (err e, s)
  after_hook false (err e, s) rest = rest s
  after_hook exit (fault x, s) rest = (fault x, s)

  unfoldable pub run_selected :
      Bool → Selected O → Exec (Shared O) (Unit {0}) → Exec (Shared O) (Unit {0})
  run_selected exit absent rest s = rest s
  run_selected exit unknown_when rest s = raise (errorf "") s
  run_selected exit (chosen m) rest s = after_hook exit (m s) rest

  -- The loop of `runHooks`.
  unfoldable pub run_loop :
      When → Containerizer O → String → Bool → List (Hook O) → Exec (Shared O) (Unit {0})
  unfolding run_selected select
  run_loop w c id exit [] = pure tt
  run_loop w c id exit (h ∷ hs) = run_selected exit (select w c id h) (run_loop w c id exit hs)

  unfoldable pub run_hooks :
      When → Manager O → Containerizer O → String → Bool → Exec (Shared O) (Unit {0})
  run_hooks w m c id exit = run_loop w c id exit m.hooks

  unfoldable pub run_pre_create_hooks : Manager O → Action O
  run_pre_create_hooks m c = run_hooks pre_create m c "" true

  unfoldable pub run_pre_run_hooks : Manager O → String → Action O
  run_pre_run_hooks m id c = run_hooks pre_run m c id true

  unfoldable pub run_post_run_hooks : Manager O → String → Action O
  run_post_run_hooks m id c = run_hooks post_run m c id true

  unfoldable pub run_pre_stop_hooks : Manager O → String → Action O
  run_pre_stop_hooks m id c = run_hooks pre_stop m c id false

  unfoldable pub run_post_stop_hooks : Manager O → String → Action O
  run_post_stop_hooks m id c = run_hooks post_stop m c id false
