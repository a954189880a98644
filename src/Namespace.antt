-- ===== src/Namespace.antt =====
-- namespace/namespace.go: a goroutine enters the network namespace of a process and comes back. The
-- thread of the goroutine has a count of its locks (`runtime.LockOSThread`); the namespace that it is
-- in belongs to the outside, as the kernel keeps it.
pub mod Return
use go_mesos_executor.Common.{ℕ, ◌+◌, ◌-◌, String, ◌<>◌, Bool, str_eq, if◌then◌else◌}
use go_mesos_executor.Common.Exec.{
  errorf, Exec, Result, ok, err, fault, raise, modify, within, settle, halt, fatal, pure, ◌>>=◌,
  ◌>>◌,
}
use go_mesos_executor.Common.Text.{itoa}
use go_mesos_executor.Outside.{Viper}

-- Package netns: a handle of a namespace by path, its identity, and the switch of the thread.
pub record Netns (O : Type 0) (Ns : Type 0) : Type 0 where
  pub get_from_path : String → Exec O Ns
  pub unique_id : Ns → String
  pub set : Ns → Exec O (Unit {0})

pub record Thread (O : Type 0) : Type 0 where
  pub locks : ℕ
  pub outside : O

abbrev pub on_thread : {O A : Type 0} → Exec O A → Exec (Thread O) A
on_thread = within (λ t. t.outside) (λ t o. record t { outside = o })

-- `defer cleanup()`: what `m` returns is returned, after the cleanup, whose result is dropped.
abbrev pub deferring : {S A : Type 0} → Result A × S → Exec S (Unit {0}) → Result A × S
deferring (ok a, s) cleanup = (ok a, (cleanup s).1)
deferring (err e, s) cleanup = (err e, (cleanup s).1)
deferring (fault x, s) cleanup = (fault x, s)

-- `init`: the namespace of the executor, when the program starts.
unfoldable pub read_current : {O Ns : Type 0} → Exec O Ns → Exec (Thread O) Ns
read_current get t =
    settle (on_thread get t) (λ x. halt (fatal "Error while retrieving current namespace")) pure

module _ {O Ns : Type 0} (viper : Viper) (netns : Netns O Ns) (current : Ns) where
  lock_thread : Exec (Thread O) (Unit {0})
  lock_thread = modify (λ t. record t { locks = t.locks + 1 })

  -- Without a lock this does nothing.
  unlock_thread : Exec (Thread O) (Unit {0})
  unlock_thread = modify (λ t. record t { locks = t.locks - 1 })

  process_path : ℕ → String
  process_path pid = (viper.get_string "proc_path" <> "/") <> (itoa pid <> "/ns/net")

  -- The thread stays locked on every way out.
  unfoldable pub enter_network_namespace : ℕ → Exec (Thread O) (Unit {0})
  unfolding lock_thread process_path
  enter_network_namespace pid = do
    lock_thread
    ns ← on_thread (netns.get_from_path (process_path pid))
    if str_eq (netns.unique_id ns) (netns.unique_id current)
        then raise (
            errorf (
              "Process network namespace and current network namespace are the same (ns: "
              <> netns.unique_id ns
              <> ")"))
        else on_thread (netns.set ns)

  unfoldable pub exit_network_namespace : Exec (Thread O) (Unit {0})
  unfolding unlock_thread
  exit_network_namespace t = deferring (on_thread (netns.set current) t) unlock_thread
