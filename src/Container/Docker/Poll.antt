-- ===== src/Container/Docker/Poll.antt =====
-- `ContainerExec` (container/docker.go): the command is started, then the engine is asked again and
-- again whether it has ended. The definition gives the first answer on the channel, which is the one
-- that the caller reads; the pauses are left out.
pub mod Endless
use go_mesos_executor.Common.{
  ℕ, zero, suc, ◌<◌, ◌≡◌, ◌∙◌, ap, String, ◌<>◌, Bool, true, false, List, if◌then◌else◌, arith,
}
use go_mesos_executor.Common.Exec.{
  errorf, blocked, Exec, Result, ok, err, halt, continue, ◌>>=◌, ◌>>◌,
}
use go_mesos_executor.Common.Int.{ℤ, pos}
use go_mesos_executor.Common.Text.{itoa_ℤ}

-- `docker.ExecInspect`
pub record Inspection : Type 0 where
  pub exit_code : ℤ
  pub running : Bool

pub record ExecClient (O : Type 0) : Type 0 where
  pub create_exec : String → List String → Exec O String
  pub start_exec : String → Exec O (Unit {0})
  pub inspect_exec : String → Exec O Inspection
  -- Whether the context of the call is done: its time is over, or it was cancelled.
  pub context_done : O → Bool

abbrev pub answer_of : ℤ → Result (Unit {0})
answer_of (pos zero) = ok tt
answer_of code = err (errorf ("Non zero return code got " <> itoa_ℤ code))

module _ {O : Type 0} (client : ExecClient O) where
  -- What `checkExec` sends, or what comes next if it sends nothing.
  check_exec : String → Exec O (Unit {0}) → Exec O (Unit {0})
  check_exec id next = do
    seen ← client.inspect_exec id
    if seen.running then next else (λ o. (answer_of seen.exit_code, o))

  -- At most that many rounds; with none left the caller still waits. Once the context is done the
  -- loop goes round without a question, so nothing more comes on the channel.
  unfoldable pub poll : ℕ → String → Exec O (Unit {0})
  unfolding check_exec
  poll zero id = halt (blocked "result")
  poll (suc n) id =
      λ o. (if client.context_done o then halt (blocked "result") else check_exec id (poll n id)) o

  unfoldable pub container_exec : ℕ → String → List String → Exec O (Unit {0})
  container_exec rounds id cmd = do
    exec_id ← client.create_exec id cmd
    client.start_exec exec_id
    poll rounds exec_id

  -- The engine reports a number of times that the command runs, with the context not yet done.
  pub data Running (id : String) : ℕ → O → O → Type 0 where
    no_round : {o : O} → Running id zero o o
    one_round :
        {n : ℕ} {o o' o'' : O} (seen : Inspection)
        → client.context_done o ≡ false
        → client.inspect_exec id o ≡ (ok seen, o')
        → seen.running ≡ true
        → Running id n o' o''
        → Running id (suc n) o o''

  poll-checked :
      (f : ℕ) (id : String) (o o' : O) (x : Inspection) (b : Bool)
      → client.context_done o ≡ false
      → client.inspect_exec id o ≡ (ok x, o')
      → x.running ≡ b
      → poll (suc f) id o ≡ (if b then poll f id else (λ o. (answer_of x.exit_code, o))) o'
  unfolding poll
  poll-checked f id o o' x b live seen is =
      ap
        (λ (d : Bool).
          (if d then halt {A = Unit {0}} (blocked "result") else check_exec id (poll f id)) o)
        live
      ∙ ap
          (λ (r : Result Inspection × O).
            continue r (λ y. if y.running then poll f id else (λ z. (answer_of y.exit_code, z))))
          seen
      ∙ ap (λ c. (if c then poll f id else (λ z. (answer_of x.exit_code, z))) o') is

  poll-answer_of :
      (f : ℕ) {n : ℕ} (id : String) {o o' o'' : O} (last : Inspection)
      → n < f
      → Running id n o o'
      → client.context_done o' ≡ false
      → client.inspect_exec id o' ≡ (ok last, o'')
      → last.running ≡ false
      → poll f id o ≡ (answer_of last.exit_code, o'')
  poll-answer_of zero id last h run live seen ends = absurd (omega arith)
  poll-answer_of (suc f) id {o} {o'} {o''} last h no_round live seen ends =
      poll-checked f id o o'' last false live seen ends
  poll-answer_of (suc f) id {o} {o'} {o''} last h (one_round {o' = mid} x early first runs rest)
        live seen ends =
      poll-checked f id o mid x true early first runs
      ∙ poll-answer_of f id last (omega arith) rest live seen ends

  -- Let the engine create and start the command, report it n times as running, then as ended, and
  -- let the context not be done at any of these n + 1 questions. With more than n rounds the caller
  -- gets an answer, which is no error just if the exit code is 0.
  pub container_exec-answer_of :
      {n : ℕ} (rounds : ℕ) (id exec_id : String) (cmd : List String) {o o1 o2 o3 o4 : O}
      (last : Inspection)
      → client.create_exec id cmd o ≡ (ok exec_id, o1)
      → client.start_exec exec_id o1 ≡ (ok tt, o2)
      → Running exec_id n o2 o3
      → n < rounds
      → client.context_done o3 ≡ false
      → client.inspect_exec exec_id o3 ≡ (ok last, o4)
      → last.running ≡ false
      → container_exec rounds id cmd o ≡ (answer_of last.exit_code, o4)
  unfolding container_exec
  container_exec-answer_of rounds id exec_id cmd last made began run enough live seen ends =
      ap (λ (r : Result String × O). continue r (λ x. client.start_exec x >> poll rounds x)) made
      ∙ ap (λ (r : Result (Unit {0}) × O). continue r (λ _. poll rounds exec_id)) began
      ∙ poll-answer_of rounds exec_id last enough run live seen ends
