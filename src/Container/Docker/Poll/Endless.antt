-- ===== src/Container/Docker/Poll/Endless.antt =====
-- The goroutine of `ContainerExec` (container/docker.go) beside its caller, `checkCommand`
-- (healthcheck/healthcheck.go), which reads one answer from the channel or gives up once the context is
-- done: its time is over, or the caller has returned, which cancels it. The channel has no buffer.
use mathlib.Core.Path.{subst}
use go_mesos_executor.Common.{ℕ, ◌+◌, ◌≤◌, ◌≡◌, refl, Bool, true, false, arith}
use go_mesos_executor.Common.Exec.{GoError, Result}

-- Where the goroutine is. `refusing` sends the error of the creation or of the start.
pub data PollerAt : Type 0 where
  creating starting selecting asking returned : PollerAt
  refusing : GoError → PollerAt
  answering : Result (Unit {0}) → PollerAt

-- The goroutine, whether the caller still reads, whether the context is done, and how many answers
-- the caller got.
pub record Polling : Type 0 where
  pub place : PollerAt
  pub reading : Bool
  pub cancelled : Bool
  pub answers : ℕ

pub data Polls (s : Polling) : Polling → Type 0 where
  created : s.place ≡ creating → Polls s (record s { place = starting })
  not_created : (x : GoError) → s.place ≡ creating → Polls s (record s { place = refusing x })
  started : s.place ≡ starting → Polls s (record s { place = selecting })
  not_started : (x : GoError) → s.place ≡ starting → Polls s (record s { place = refusing x })
  goes_round : s.place ≡ selecting → s.cancelled ≡ true → Polls s s
  sleeps : s.place ≡ selecting → s.cancelled ≡ false → Polls s (record s { place = asking })
  still_runs : s.place ≡ asking → Polls s (record s { place = selecting })
  inspected :
      (answer : Result (Unit {0}))
      → s.place ≡ asking
      → Polls s (record s { place = answering answer })
  tells :
      {answer : Result (Unit {0})}
      → s.place ≡ answering answer
      → s.reading ≡ true
      → Polls s (record s { place = selecting; reading = false; answers = s.answers + 1 })
  refuses :
      {x : GoError}
      → s.place ≡ refusing x
      → s.reading ≡ true
      → Polls s (record s { place = returned; reading = false; answers = s.answers + 1 })
  cancels : Polls s (record s { cancelled = true })
  gives_up : s.reading ≡ true → s.cancelled ≡ true → Polls s (record s { reading = false })

pub data PollRun (s : Polling) : Polling → Type 0 where
  stays : PollRun s s
  polls : {t u : Polling} → PollRun s t → Polls t u → PollRun s u

-- The call of `ContainerExec`.
abbrev pub called_exec : Polling
called_exec = record { place = creating; reading = true; cancelled = false; answers = 0 }

-- In the loop that asks the engine.
abbrev pub InLoop : PollerAt → Type 0
InLoop selecting = Unit
InLoop asking = Unit
InLoop (answering a) = Unit
InLoop _ = ⊥

Polls-InLoop : {s t : Polling} → Polls s t → InLoop s.place → InLoop t.place
Polls-InLoop (created e) h = absurd (subst InLoop e h)
Polls-InLoop (not_created x e) h = absurd (subst InLoop e h)
Polls-InLoop (started e) h = tt
Polls-InLoop (not_started x e) h = absurd (subst InLoop e h)
Polls-InLoop (goes_round e c) h = h
Polls-InLoop (sleeps e c) h = tt
Polls-InLoop (still_runs e) h = tt
Polls-InLoop (inspected a e) h = tt
Polls-InLoop (tells e r) h = tt
Polls-InLoop (refuses e r) h = absurd (subst InLoop e h)
Polls-InLoop cancels h = h
Polls-InLoop (gives_up r c) h = h

PollRun-InLoop : {s t : Polling} → PollRun s t → InLoop s.place → InLoop t.place
PollRun-InLoop stays h = h
PollRun-InLoop (polls r p) h = Polls-InLoop p (PollRun-InLoop r h)

-- While the caller reads it has got nothing.
record Fair (s : Polling) : Type 0 where
  unread : s.reading ≡ true → s.answers ≡ 0
  few : s.answers ≤ 1

told :
    {s : Polling} (x : PollerAt)
    → s.reading ≡ true
    → Fair s
    → Fair (record s { place = x; reading = false; answers = s.answers + 1 })
told x r f = record { unread = λ q. absurd (cc q); few = omega (arith, f.unread r) }

moved : {s : Polling} (x : PollerAt) → Fair s → Fair (record s { place = x })
moved x f = record { unread = f.unread; few = f.few }

Polls-Fair : {s t : Polling} → Polls s t → Fair s → Fair t
Polls-Fair (created e) f = moved starting f
Polls-Fair (not_created x e) f = moved (refusing x) f
Polls-Fair (started e) f = moved selecting f
Polls-Fair (not_started x e) f = moved (refusing x) f
Polls-Fair (goes_round e c) f = f
Polls-Fair (sleeps e c) f = moved asking f
Polls-Fair (still_runs e) f = moved selecting f
Polls-Fair (inspected a e) f = moved (answering a) f
Polls-Fair (tells e r) f = told selecting r f
Polls-Fair (refuses e r) f = told returned r f
Polls-Fair cancels f = record { unread = f.unread; few = f.few }
Polls-Fair (gives_up r c) f = record { unread = λ q. absurd (cc q); few = f.few }

PollRun-Fair : {s t : Polling} → PollRun s t → Fair s → Fair t
PollRun-Fair stays f = f
PollRun-Fair (polls r p) f = Polls-Fair p (PollRun-Fair r f)

called_exec-Fair : Fair called_exec
called_exec-Fair = record { unread = λ q. refl; few = omega arith }

together : {s t u : Polling} → PollRun s t → PollRun t u → PollRun s u
together r stays = r
together r (polls q p) = polls (together r q) p

-- Once the command has been started, in every interleaving with the caller, which reads one answer
-- or gives up: the goroutine never returns, whatever the engine answers and though the context is
-- cancelled, and the caller gets at most one answer of all those that the goroutine comes to send.
pub PollRun-InLoop_few :
    {s t : Polling}
    → PollRun called_exec s
    → InLoop s.place
    → PollRun s t
    → InLoop t.place × (t.answers ≤ 1)
PollRun-InLoop_few r h q = (PollRun-InLoop q h, (PollRun-Fair (together r q) called_exec-Fair).few)
