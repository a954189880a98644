-- ===== src/Wiring/Program/Whole.antt =====
-- The whole program of main.go, from its flags to the end of `Execute`.
use mathlib.Core.Path.{subst}
use go_mesos_executor.Common.{◌≡◌, refl, String, [], ◌∷◌, none, some}
use go_mesos_executor.Common.Exec.{Result, ok, err, fault, Exec, continue}
use go_mesos_executor.Container.{Containerizer}
use go_mesos_executor.Executor.{Agent, Executor, api_url, new_executor}
use go_mesos_executor.Executor.Ledger.Refines.{Took, Reach-pending}
use go_mesos_executor.Executor.Loop.{Phase, subscribing, handling, finished, Reach}
use go_mesos_executor.Executor.Loop.Ended.{Ended, Reach-Ended}
use go_mesos_executor.Executor.Loop.Shutdown.{IsShutdown}
use go_mesos_executor.Executor.Updates.{pending}
use go_mesos_executor.Hook.{Manager}
use go_mesos_executor.Hook.Acl.{acl_hook}
use go_mesos_executor.Hook.Iptables.{iptables_hook}
use go_mesos_executor.Hook.Netns.{netns_hook}
use go_mesos_executor.Hook.Network.{network_hook}
use go_mesos_executor.Hook.Order.{enabled_of}
use go_mesos_executor.Hook.Remove.{remove_container_hook}
use go_mesos_executor.Mesos.{TaskStatus}
use go_mesos_executor.Outside.{Viper, Net, Os, Iptables}
use go_mesos_executor.Wiring.{main_manager-enabled_of}
use go_mesos_executor.Wiring.Flags.{Cli, Process, on_outside, or_fatal, init, read_config}
use go_mesos_executor.Wiring.Program.{
  Program, config_of, run_command, parse_arguments, main_program, exit_of_program,
}

module _ {O : Type 0} (cli : Cli O) (viper : Viper) (net : Net) (os : Os O) (driver : Iptables O)
    (new_containerizer : String → Exec O (Containerizer O)) (new_agent : String → Agent O) where
  -- The program is set up from the state of the process: a fresh executor with the configuration in
  -- the package variables, the client for its URL, and the enabled hooks in their order.
  abbrev pub IsSetUp : Program O → Process O → Type 0
  IsSetUp p s =
      (p.executor ≡ new_executor (config_of s.globals) s.outside)
      × (p.agent ≡ new_agent (api_url (config_of s.globals)))
      × (p.manager.hooks
          ≡ enabled_of (cli.get_string_slice "hooks" s.outside) (
              network_hook
              ∷ netns_hook viper os
              ∷ acl_hook viper net driver
              ∷ iptables_hook viper driver
              ∷ remove_container_hook
              ∷ []))

  abbrev SetUpAt : Result (Program O) × Process O → Type 0
  SetUpAt (ok p, s) = IsSetUp p s
  SetUpAt (err x, s) = Unit
  SetUpAt (fault x, s) = Unit

  continue-SetUpAt :
      {A : Type 0} (r : Result A × Process O) (f : A → Exec (Process O) (Program O))
      → ((x : A) (s : Process O) → SetUpAt (f x s))
      → SetUpAt (continue r f)
  continue-SetUpAt (ok x, s) f h = h x s
  continue-SetUpAt (err x, s) f h = tt
  continue-SetUpAt (fault x, s) f h = tt

  run_command-SetUpAt :
      (s : Process O) → SetUpAt (run_command cli viper net os driver new_containerizer new_agent s)
  unfolding run_command
  run_command-SetUpAt s =
      continue-SetUpAt (or_fatal (on_outside (new_containerizer s.globals.docker_socket)) _ s) _
        (λ x t. (
          refl,
          refl,
          main_manager-enabled_of viper net os driver (cli.get_string_slice "hooks" t.outside),
        ))

  main_program-SetUpAt :
      (s : Process O) → SetUpAt (main_program cli viper net os driver new_containerizer new_agent s)
  unfolding main_program
  main_program-SetUpAt s = continue-SetUpAt (init cli s) _ (λ _ s1.
      continue-SetUpAt (parse_arguments cli s1) _
        (λ _ s2. continue-SetUpAt (read_config cli s2) _ (λ _ s3. run_command-SetUpAt s3)))

  -- Where the program comes to `Execute`, its executor is a fresh one with the configuration of the
  -- package variables as the flags and the environment left them, it talks to the URL of that
  -- configuration, and its hooks are the enabled ones in the order network, netns, acl, iptables,
  -- removeContainer.
  pub main_program-IsSetUp :
      (s s' : Process O) (p : Program O)
      → main_program cli viper net os driver new_containerizer new_agent s ≡ (ok p, s')
      → IsSetUp p s'
  main_program-IsSetUp s s' p did =
      subst (λ (r : Result (Program O) × Process O). SetUpAt r) did (main_program-SetUpAt s)

  -- From where the program calls `Execute`, in every interleaving of the main loop with the other
  -- goroutines: an update that waits for an acknowledgment stands under its own UUID, and the agent
  -- behind the program's client took it, sent for the executor and the framework that the package
  -- variables name.
  pub main_program-pending :
      (s s' : Process O) (p : Program O) {t : Phase × Executor O} (k : String) (status : TaskStatus)
      → main_program cli viper net os driver new_containerizer new_agent s ≡ (ok p, s')
      → Reach p.containerizer p.manager p.agent (subscribing, p.executor) t
      → pending t.1 k ≡ some status
      → (status.uuid ≡ k) × Took p.agent s'.globals.executor_id s'.globals.framework_id status
  main_program-pending s s' p {t} k status did r =
      Reach-pending p.containerizer p.manager p.agent (config_of s'.globals) s'.outside k status (
        subst (λ e. Reach p.containerizer p.manager p.agent (subscribing, e) t)
          (main_program-IsSetUp s s' p did).0 r)

module _ {O : Type 0} (c : Containerizer O) (m : Manager O) (agent : Agent O) where
  Ended-exit :
      (p : Phase) (e : Executor O) (r : Result (Unit {0}))
      → Ended c m agent (p, e)
      → exit_of_program p ≡ some r
      → IsShutdown e
  unfolding exit_of_program
  Ended-exit subscribing e r h q = absurd (cc q)
  Ended-exit handling e r h q = absurd (cc q)
  Ended-exit (finished none) e r h q = h
  Ended-exit (finished (some x)) e r h q = h.0

  -- The process ends, with or without an error, only once the executor has been told to kill its
  -- task, in every interleaving of the main loop with the other goroutines.
  pub Reach-exit :
      (e e' : Executor O) (p : Phase) (r : Result (Unit {0}))
      → Reach c m agent (subscribing, e) (p, e')
      → exit_of_program p ≡ some r
      → IsShutdown e'
  Reach-exit e e' p r reach q = Ended-exit p e' r (Reach-Ended c m agent reach) q
