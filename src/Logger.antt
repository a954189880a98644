-- ===== src/Logger.antt =====
-- logger/logger.go: the one logger of the process, built on its first use. zap is a parameter.
use mathlib.Core.Path.{subst}
use go_mesos_executor.Common.{
  ◌≡◌, ◌≢◌, refl, String, Bool, true, false, Option, none, some, if◌then◌else◌,
}
use go_mesos_executor.Common.Exec.{
  Result, ok, err, fault, fatal, Exec, halt, gets, modify, within, settle, continue, ◌>>=◌, ◌>>◌,
}

pub data Level : Type 0 where
  info_level debug_level : Level

-- The parts of `zap.Config` that differ from `zap.NewProductionConfig()`, whose level is Info.
pub record ZapConfig : Type 0 where
  pub disable_stacktrace : Bool
  pub level : Level

-- The package variables and the outside.
pub record State (L O : Type 0) : Type 0 where
  pub instance : Option L
  pub once : Bool  -- `once.Do` has been called
  pub outside : O

module _ {L O : Type 0} (get_bool : String → O → Bool) (build : ZapConfig → Exec O L) where
  -- The function that runs once.
  initialize : Exec (State L O) (Unit {0})
  initialize = do
    debug ← gets (λ s. get_bool "debug" s.outside)
    let config : ZapConfig = record {
      disable_stacktrace = true;
      level = if debug then debug_level else info_level;
    } in
        λ s.
          settle (within (λ s. s.outside) (λ s o. record s { outside = o }) (build config) s)
            (λ x. halt (fatal "Error while initializing production logger"))
            (λ prod. modify (λ s. record s { instance = some prod }))

  once_do : Exec (State L O) (Unit {0}) → Exec (State L O) (Unit {0})
  once_do f s = if s.once then (ok tt, s) else f (record s { once = true })

  -- What it returns is nil where `instance` is.
  unfoldable pub get_instance : Exec (State L O) (Option L)
  unfolding initialize once_do
  get_instance = do once_do initialize; gets (λ s. s.instance)

  abbrev pub unbuilt : O → State L O
  unbuilt o = record { instance = none; once = false; outside = o }

  -- A call's result, which a later call gives again, whatever the outside is by then.
  abbrev Again : O → Result (Option L) × State L O → Type 0
  Again o (ok r, s) =
      (r ≢ none) × (get_instance (record s { outside = o }) ≡ (ok r, record s { outside = o }))
  Again o (err x, s) = Unit
  Again o (fault x, s) = Unit

  built-Again :
      (o o' : O) (p : Result L × O)
      → Again o' (
          continue
            (settle
              (p.0, record (unbuilt o) { once = true; outside = p.1 })
              (λ x. halt (fatal "Error while initializing production logger"))
              (λ prod. modify (λ s. record s { instance = some prod })))
            (λ _. gets (λ s. s.instance)))
  unfolding get_instance once_do
  built-Again o o' (ok l, o1) = (λ q. cc, refl)
  built-Again o o' (err x, o1) = tt
  built-Again o o' (fault x, o1) = tt

  first-Again : (o o' : O) → Again o' (get_instance (unbuilt o))
  unfolding get_instance once_do initialize
  first-Again o o' = built-Again o o' (build _ o)

  -- The first call that comes back gives a logger, and each later call gives the same one and builds
  -- nothing, whatever has become of the configuration and the rest of the outside.
  pub get_instance-again :
      (o o' : O) (r : Option L) (s : State L O)
      → get_instance (unbuilt o) ≡ (ok r, s)
      → (r ≢ none) × (get_instance (record s { outside = o' }) ≡ (ok r, record s { outside = o' }))
  get_instance-again o o' r s did =
      subst (λ (x : Result (Option L) × State L O). Again o' x) did (first-Again o o')
