-- ===== src/Executor/Launch/Limits.antt =====
-- The limits of a task (executor/executor.go) on their way to the Docker engine
-- (container/docker.go), as machine words.
use mathlib.Core.Path.{subst}
use native.Mathlib.Nat.{div-lt_iff_lt-mul, mul-div-le, lt-mul-div-succ}
use go_mesos_executor.Common.{
  ◌-◌, ℕ, ◌+◌, ◌*◌, ◌^◌, ◌<◌, ◌≤◌, ◌≡◌, refl, sym, ◌∙◌, ap, String, Bool, true, arith, ltb,
  if◌then◌else◌,
}
use go_mesos_executor.Common.Exec.{Result, ok, err, fault}
use go_mesos_executor.Common.Int.{power_pos, ℤ, pos, negsuc, to_int64}
use go_mesos_executor.Container.Docker.{DockerClient, CreateOptions}
use go_mesos_executor.Container.Docker.Addresses.{Interfaces}
use go_mesos_executor.Container.Docker.Create.{create_options-limits, container_create-ok}
use go_mesos_executor.Container.Docker.Engine.{docker_containerizer}
use go_mesos_executor.Container.Docker.Poll.{ExecClient}
use go_mesos_executor.Executor.{
  Agent, Executor, get_resource, get_memory_limit, get_cpu_shares_limit, scaled,
}
use go_mesos_executor.Executor.Handlers.{handle_launch}
use go_mesos_executor.Executor.Launch.Launched.{handle_launch-Launched}
use go_mesos_executor.Hook.{Manager}
use go_mesos_executor.Mesos.{Float64, scale, truncate, TaskInfo, Resource, get_value}
use go_mesos_executor.Namespace.{Netns, Thread}
use go_mesos_executor.Outside.{Viper}

-- The value times 2 ^ k, without its fraction.
pub record IsFloor (z : ℤ) (k : ℕ) (f : Float64) : Type 0 where
  pub whole : ℕ
  pub same : z ≡ pos whole
  pub below : 2 ^ f.down * whole ≤ f.mantissa * 2 ^ (f.up + k)
  pub above : f.mantissa * 2 ^ (f.up + k) < 2 ^ f.down * (whole + 1)

-- The value times 2 ^ k is in the range of an int64.
abbrev pub InRange : ℕ → Float64 → Type 0
InRange k f = f.mantissa * 2 ^ (f.up + k) < 2 ^ 63 * 2 ^ f.down

to_int64-pos : (n : ℕ) → n < 2 ^ 63 → to_int64 n ≡ pos n
unfolding to_int64
to_int64-pos n l =
    let small : ltb n (2 ^ 63) ≡ true = ground arith in
    ap (λ (b : Bool). if b then pos n else negsuc (2 ^ 64 - 1 - n)) small

to_int64-IsFloor :
    (k : ℕ) (f : Float64) → InRange k f → IsFloor (to_int64 (truncate (scale f k))) k f
to_int64-IsFloor k f l = record {
  whole = truncate (scale f k);
  same = to_int64-pos (truncate (scale f k)) (
      (div-lt_iff_lt-mul {k = 2 ^ f.down} {x = f.mantissa * 2 ^ (f.up + k)} {y = 2 ^ 63}
          (power_pos f.down)).1
        l);
  below = mul-div-le (f.mantissa * 2 ^ (f.up + k)) (2 ^ f.down);
  above = lt-mul-div-succ (f.mantissa * 2 ^ (f.up + k)) (power_pos f.down);
}

-- A limit that was read is the task's resource, scaled.
scaled-ok :
    (k : ℕ) (x : Result Resource) (r : Resource) (n : ℕ)
    → x ≡ ok r
    → scaled k x ≡ ok n
    → n ≡ truncate (scale (get_value r) k)
scaled-ok k x r n q p =
    subst
      (λ (y : Result ℕ). elim y [
        | ok a ↦ a ≡ truncate (scale (get_value r) k)
        | err x ↦ Unit
        | fault x ↦ Unit
      ])
      (ap (scaled k) (sym q) ∙ p) refl

module _ {O Interface Addr IpNet Ns : Type 0} (interfaces : Interfaces O Interface Addr IpNet)
    (viper : Viper) (netns : Netns O Ns) (current : Ns) (client : DockerClient O)
    (exec : ExecClient O) (rounds : ℕ) (m : Manager (Thread O)) (agent : Agent (Thread O)) where
  -- What the engine was asked for.
  pub record Limited (name : String) (mem cpu : Float64) : Type 0 where
    pub options : CreateOptions
    pub before : O
    pub after : O
    pub id : String
    pub asked : client.create_container options before ≡ (ok id, after)
    pub named : options.name ≡ name
    pub memory : IsFloor options.memory 20 mem
    pub shares : IsFloor options.cpu_shares 10 cpu

  -- Let a launch with the containerizer for Docker return no error, for a task whose first resource
  -- mem has the value v and whose first resource cpus has the value w, with v * 2 ^ 20 and
  -- w * 2 ^ 10 in the range of an int64. Then the engine has made a container with the executor's
  -- container name, the memory limit v * 2 ^ 20 and the CPU shares w * 2 ^ 10, each without its
  -- fraction and none of them negative.
  pub handle_launch-Limited :
      (task : TaskInfo) (e e' : Executor (Thread O)) (mem cpu : Resource)
      → handle_launch
          (docker_containerizer interfaces viper netns current client exec rounds)
          m
          agent
          task
          e
        ≡ (ok tt, e')
      → get_resource task.resources "mem" ≡ ok mem
      → get_resource task.resources "cpus" ≡ ok cpu
      → InRange 20 (get_value mem)
      → InRange 10 (get_value cpu)
      → Limited e.container_name (get_value mem) (get_value cpu)
  unfolding get_memory_limit get_cpu_shares_limit
  handle_launch-Limited task e e' mem cpu did has_mem has_cpu small_mem small_cpu =
      let c = docker_containerizer interfaces viper netns current client exec rounds in
      let l = handle_launch-Launched c m agent task e e' did in
      let (options, built, asked) =
        container_create-ok client _ l.at_create.outside.outside l.made.outside.outside l.id (
          ap (λ (r : Result String × Executor (Thread O)). (r.0, r.1.outside.outside)) l.created) in
      let (memory, shares, name) = create_options-limits _ options built in
      record {
        options = options;
        before = l.at_create.outside.outside;
        after = l.made.outside.outside;
        id = l.id;
        asked = asked;
        named = name;
        memory =
            subst (λ z. IsFloor z 20 (get_value mem))
              (sym (memory ∙ ap to_int64 (scaled-ok 20 _ mem l.mem has_mem l.memory)))
              (to_int64-IsFloor 20 (get_value mem) small_mem);
        shares =
            subst (λ z. IsFloor z 10 (get_value cpu))
              (sym (shares ∙ ap to_int64 (scaled-ok 10 _ cpu l.cpu has_cpu l.shares)))
              (to_int64-IsFloor 10 (get_value cpu) small_cpu);
      }
