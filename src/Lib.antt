-- ===== src/Lib.antt =====
-- go-mesos-executor: a container executor for Apache Mesos, as definitions that run and theorems
-- about them.
--
-- The program. The agent starts one executor process for one task. The executor (package executor)
-- subscribes to the agent, reads events and answers with status updates. A launch makes a container
-- through a containerizer (package container) with hooks (package hook) around it: pre-create,
-- pre-run and post-run before the task counts as running, pre-stop and post-stop when it is torn
-- down. Hooks change the task, the firewall and the disk. If the task asks for it, a health checker
-- (package healthcheck) runs beside and gives the task up after failed checks. Goroutines share the
-- executor: the loop of `Execute`, `healthCheck`, `waitContainer`, `handleStopSignals`.
--
-- The model. Go code that can fail or panic is `Exec S A`: a function from the state to a result and
-- the state left. A result is a value, an error, or a fault: a panic, or a wait that never ends.
-- The type `O` is the state of all that is outside of the program; what the program calls there is
-- a field of a record that the definitions take: `Containerizer`, `Agent`, `Viper`, `Os`, `Net`,
-- `Iptables`, `DockerClient`, `ExecClient`, `Interfaces`, `Netns`, `Dialer`, `Cli`. The laws that
-- a theorem needs of them are its hypotheses (`IsFirewall`, `IsNetns`, `IsNeutral`,
-- `IsObliging`).
--
-- The files, with the code that they model:
--   Common, Common/..       numbers, lists, texts, maps, and `Exec` with its laws
--   Mesos                   the messages of the Mesos v1 API that the program reads and writes
--   Container               container/containerizer.go; Container/Fake: types/types.go
--   Container/Docker, ..    container/docker.go: Docker/Create on ContainerCreate, Docker/Addresses on
--                           ContainerGetIPsByInterface, Docker/Poll on ContainerExec (its answer, and
--                           Poll/Endless its goroutine beside the caller); Docker/Engine
--                           is the instance of the interface, Docker/Client makes it for a socket
--   Namespace, ..           namespace/namespace.go
--   Outside                 what is called outside: viper, os, net, go-iptables
--   Hook                    hook/hook.go, hook/hook_manager.go: `Manager`, `register_hooks` for
--                           RegisterHooks, `run_hooks` for runHooks; proofs in Hook/Order, Hook/Run
--   Hook/Acl, Hook/Iptables, Hook/Netns, Hook/Network, Hook/Remove
--                           hook/acl.go, iptables.go, netns.go, network.go, remove_container.go
--   Hook/Firewall, ..       what the two hooks of the firewall share
--   Executor, Executor/Handlers
--                           executor/executor.go: `Executor` is the struct, with what the hooks see
--                           of it in `shared`; `handle_launch` for handleLaunch and so on;
--                           `tear_down`, `throw_error`, `update_status`
--   Executor/Loop           `Execute` as steps: `main_step` is one call of the agent with what
--                           follows it; `Step` adds the steps of the other goroutines
--   Executor/Loop/Stable, ..
--                           all that the handlers and goroutines change, change by change
--   Executor/Ledger, ..     the abstract view of `UnackedUpdates`, and the executor against it
--   Executor/Threads, ..    handleKill and the end of waitContainer cut into their calls, for
--                           several goroutines at once
--   Executor/Restore, Hook/Restore
--                           launch, hooks of the firewall and kill together
--   Executor/Obliging, Executor/Exited
--                           teardowns and reports that nothing holds up, and waitContainer with them
--   Executor/Launch/Running, Executor/Loop/FailedLaunch
--                           what a launch leaves, and what follows one that fails
--   Executor/Launch/Limits  the limits of the task as the Docker engine gets them
--   Executor/Launch, Executor/Teardown, Executor/Updates, Executor/Loop/..
--                           what is proved of launches, teardowns, pending updates and the loop
--   Health                  healthcheck/healthcheck.go: the loop of `Run` over a list of ticks
--   Health/Check, ..        the three checks, `checkHTTP`, `checkTCP`, `checkCommand`
--   Health/Count, Health/Giveup
--                           when the loop gives the task up; Health/Interval: its ticker
--   Health/Race, ..         the loop of `Run` beside `healthCheck` and the main loop, as steps
--   Logger                  logger/logger.go: GetInstance
--   Wiring                  main.go: the registration of the hooks; Wiring/Flags: `init`, readConfig;
--                           Wiring/Program: `main` up to `Execute` and what becomes of the process
--   Tests                   concrete runs
--
-- Choices. In Executor/Loop a handler is one step, and the order of whole handlers is free. The
-- code has no lock around its handlers: Executor/Threads has the routines that end a task with one
-- step for each of their calls, of any number of goroutines; a run of hooks is one call there. A
-- channel without buffer passes a message when both sides are there; a send that nobody will
-- receive is the fault `blocked`. A float64 is finite and not negative, a mantissa times a power
-- of two, so products by 1024 are exact. Loops are over lists, so no fuel is needed; `main_steps`
-- counts steps. The polling of a command takes the number of rounds, and more rounds than the
-- engine reports the command as running are enough for the answer. `sort.Sort` is written as it
-- runs on up to six elements, an insertion sort; five hooks exist, and on a longer slice the
-- code's order of equal hooks can be another. A status holds the executor's id, where the code
-- keeps a pointer to the field that a subscription overwrites: they differ only if the agent gives
-- another id when the executor subscribes again. The health checker's count is a uint32 with its
-- wrap-around. Printing of numbers has as much fuel as the number plus one, which is more than it
-- has digits.
--
-- Not modelled: what is logged; waiting times; cobra, viper, the HTTP client and the decoder of
-- events, the Docker client, netlink, zap: parameters. The map of pending updates is listed in the
-- order of insertion, where Go's order is random.
pub mod Common
pub mod Mesos
pub mod Container
pub mod Outside
pub mod Hook
pub mod Executor
pub mod Namespace
pub mod Health
pub mod Logger
pub mod Wiring
pub mod Tests
