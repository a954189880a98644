-- ===== src/Container/Docker/Create.antt =====
-- The container that `ContainerCreate` (container/docker.go) asks for: its limits, network and ports.
use mathlib.Core.Path.{subst}
use go_mesos_executor.Common.{
  ◌≡◌, refl, sym, ◌∙◌, ap, String, Bool, true, false, Option, none, some, List, [], ◌∷◌, str_eq,
  if◌then◌else◌,
}
use go_mesos_executor.Common.Exec.{Result, ok, err, fault}
use go_mesos_executor.Common.Int.{to_int64}
use go_mesos_executor.Common.Table.{Table, lookup, insert, lookup-insert}
use go_mesos_executor.Common.Text.{itoa}
use go_mesos_executor.Container.{Containerizer, Info}
use go_mesos_executor.Container.Docker.{
  port_key, bind_ports, network_mode_of, binds_of, volumes_of, options_with, CreateOptions,
  create_options, container_create, DockerClient,
}
use go_mesos_executor.Hook.{Shared}
use go_mesos_executor.Hook.Network.{set_network, set_user_network, network_pre_create}
use go_mesos_executor.Mesos.{TaskInfo, ContainerInfo, DockerInfo, PortMapping}

options_with-limits :
    (info : Info) (mode : Result String) (binds : Result (List String)) (options : CreateOptions)
    → options_with info mode binds ≡ ok options
    → (options.memory ≡ to_int64 info.memory_limit)
      × (options.cpu_shares ≡ to_int64 info.cpu_shares_limit)
      × (options.name ≡ info.name)
options_with-limits info (ok mode) (ok binds) options p =
    subst
      (λ (r : Result CreateOptions). elim r [
        | ok x ↦
            (x.memory ≡ to_int64 info.memory_limit)
            × (x.cpu_shares ≡ to_int64 info.cpu_shares_limit)
            × (x.name ≡ info.name)
        | err x ↦ Unit
        | fault x ↦ Unit
      ])
      p (refl, refl, refl)
options_with-limits info (ok mode) (err x) options p = absurd (cc p)
options_with-limits info (ok mode) (fault x) options p = absurd (cc p)
options_with-limits info (err x) binds options p = absurd (cc p)
options_with-limits info (fault x) binds options p = absurd (cc p)

pub create_options-limits :
    (info : Info) (options : CreateOptions)
    → create_options info ≡ ok options
    → (options.memory ≡ to_int64 info.memory_limit)
      × (options.cpu_shares ≡ to_int64 info.cpu_shares_limit)
      × (options.name ≡ info.name)
unfolding create_options
create_options-limits info options =
    options_with-limits info (network_mode_of info.task_info)
      (binds_of (volumes_of info.task_info.container)) options

-- What `ContainerCreate` asked the engine for, where it returns an ID.
pub container_create-ok :
    {O : Type 0} (client : DockerClient O) (info : Info) (o o' : O) (id : String)
    → container_create client info o ≡ (ok id, o')
    → (options : CreateOptions) × (create_options info ≡ ok options)
      × (client.create_container options o ≡ (ok id, o'))
unfolding container_create
container_create-ok {O} client info o o' id = by_options (create_options info) refl
  where
    by_options :
        (r : Result CreateOptions)
        → create_options info ≡ r
        → (let done : Result String × O = elim r [
          | ok options ↦ client.create_container options o
          | err x ↦ (err x, o)
          | fault x ↦ (fault x, o)
        ] in
            done)
          ≡ (ok id, o')
        → (options : CreateOptions) × (create_options info ≡ ok options)
          × (client.create_container options o ≡ (ok id, o'))
    by_options (ok options) q p = (options, q, p)
    by_options (err x) q p = absurd (cc p)
    by_options (fault x) q p = absurd (cc p)

-- The host port of the last mapping of a container port.
pub last_for : String → List PortMapping → Option String
last_for k [] = none
last_for k (p ∷ ps) =
    let rest = last_for k ps in
    elim rest [
      | none ↦ if str_eq (port_key p) k then some (itoa p.host_port) else none
      | some port ↦ some port
    ]

abbrev or_else : Option String → Option String → Option String
or_else none o = o
or_else (some a) o = some a

bind_ports-or_else :
    (k : String) (ps : List PortMapping) (t : Table String)
    → lookup k (bind_ports t ps) ≡ or_else (last_for k ps) (lookup k t)
unfolding bind_ports last_for
bind_ports-or_else k [] t = refl
bind_ports-or_else k (p ∷ ps) t =
    bind_ports-or_else k ps (insert (port_key p) (itoa p.host_port) t)
    ∙ ap (or_else (last_for k ps)) (lookup-insert (port_key p) k (itoa p.host_port) t)
    ∙ later (last_for k ps) (str_eq (port_key p) k)
  where
    later :
        (o : Option String) (b : Bool)
        → or_else o (if b then some (itoa p.host_port) else lookup k t)
          ≡ or_else
              (elim o [
                | none ↦ if b then some (itoa p.host_port) else none
                | some port ↦ some port
              ])
              (lookup k t)
    later none true = refl
    later none false = refl
    later (some port) b = refl

-- A container port and protocol is bound to the host port of the last mapping of the task that
-- names it; what no mapping names is not bound.
pub bind_ports-last_for :
    (k : String) (ps : List PortMapping) → lookup k (bind_ports [] ps) ≡ last_for k ps
unfolding lookup
bind_ports-last_for k ps = bind_ports-or_else k ps [] ∙ or_none (last_for k ps)
  where
    or_none : (o : Option String) → or_else o none ≡ o
    or_none none = refl
    or_none (some a) = refl

-- After the network hook has run for a task, a container that is made of any copy of the task with
-- the container's description that the hook left joins the network named like the framework.
pub network_pre_create-network_mode_of :
    {O : Type 0} (c : Containerizer O) (s s' : Shared O) (task : TaskInfo)
    → network_pre_create c s ≡ (ok tt, s')
    → network_mode_of (record task { container = s'.task_info.container })
      ≡ ok s.framework_info.name
unfolding network_pre_create set_user_network set_network network_mode_of
network_pre_create-network_mode_of {O} c s s' task p = with_container s.task_info.container p
  where
    with_docker :
        (d : Option DockerInfo) (k : ContainerInfo)
        → set_network {O = O} d k s ≡ (ok tt, s')
        → network_mode_of (record task { container = s'.task_info.container })
          ≡ ok s.framework_info.name
    with_docker none k q = absurd (cc q)
    with_docker (some d) k q =
        ap
          (λ (x : Result (Unit {0}) × Shared O).
            network_mode_of (record task { container = x.1.task_info.container }))
          (sym q)

    with_container :
        (o : Option ContainerInfo)
        → set_user_network {O = O} o s ≡ (ok tt, s')
        → network_mode_of (record task { container = s'.task_info.container })
          ≡ ok s.framework_info.name
    with_container none q = absurd (cc q)
    with_container (some k) q = with_docker k.docker k q
