-- ===== src/Common/Exec/Monad.antt =====
-- Go code as state passing. A call returns a value, returns an `error`, or does not return.
use Prim.Native.String.{String}
use mathlib.Core.Path.{◌≡◌}

-- A value of Go's type `error` that is not nil. `io.ErrUnexpectedEOF` is told apart by identity.
pub data GoError : Type 0 where
  unexpected_eof : GoError
  errorf : String → GoError

abbrev pub error_text : GoError → String
error_text unexpected_eof = "unexpected EOF"
error_text (errorf s) = s

-- Why a call does not return: a panic, a channel operation that no goroutine will meet, or the end
-- of the process behind a message of the logger at level Fatal.
pub data Fault : Type 0 where
  panic : String → Fault
  blocked : String → Fault
  fatal : String → Fault

pub data Result {ℓ} (A : Type ℓ) : Type ℓ where
  ok : A → Result A
  err : GoError → Result A
  fault : Fault → Result A

abbrev pub Exec {ℓ κ} : Type ℓ → Type κ → Type (ℓ ⊔ κ)
Exec S A = S → Result A × S

module _ {ℓ κ} {S : Type ℓ} {A : Type κ} where
  abbrev pub pure : A → Exec S A
  pure a s = (ok a, s)

  abbrev pub raise : GoError → Exec S A
  raise e s = (err e, s)

  abbrev pub halt : Fault → Exec S A
  halt f s = (fault f, s)

  -- `_ = m()`: an error is dropped, a fault is not
  abbrev pub drop_error : Result A × S → Result (Unit {0}) × S
  drop_error (ok _, s) = (ok tt, s)
  drop_error (err _, s) = (ok tt, s)
  drop_error (fault f, s) = (fault f, s)

  abbrev pub attempt : Exec S A → Exec S (Unit {0})
  attempt m s = drop_error (m s)

module _ {ℓ} {S : Type ℓ} where
  abbrev pub gets {κ} : {A : Type κ} → (S → A) → Exec S A
  gets f s = (ok (f s), s)

  abbrev pub modify : (S → S) → Exec S (Unit {0})
  modify f s = (ok tt, f s)

module _ {ℓ κ μ} {S : Type ℓ} {A : Type κ} {B : Type μ} where
  abbrev pub continue : Result A × S → (A → Exec S B) → Result B × S
  continue (ok a, s) f = f a s
  continue (err e, s) f = (err e, s)
  continue (fault x, s) f = (fault x, s)

  infixl 5 ◌>>=◌ ◌>>◌
  abbrev pub ◌>>=◌ : Exec S A → (A → Exec S B) → Exec S B
  ◌>>=◌ m f s = continue (m s) f

  abbrev pub ◌>>◌ : Exec S A → Exec S B → Exec S B
  ◌>>◌ m n s = continue (m s) (λ _. n)

  -- `if err != nil { return handle(err) }`
  abbrev pub settle : Result A × S → (GoError → Exec S B) → (A → Exec S B) → Result B × S
  settle (ok a, s) onerr f = f a s
  settle (err e, s) onerr f = onerr e s
  settle (fault x, s) onerr f = (fault x, s)

-- An action on a part of the state.
module _ {ℓ κ μ} {S : Type ℓ} {T : Type κ} {A : Type μ} where
  abbrev pub within : (S → T) → (S → T → S) → Exec T A → Exec S A
  within view update m s = let (r, t) = m (view s) in (r, update s t)

-- How a call ends, as propositions by cases.
abbrev pub NoError {ℓ} : {A : Type ℓ} → Result A → Type 0
NoError (err e) = ⊥
NoError _ = Unit

abbrev pub NoFault {ℓ} : {A : Type ℓ} → Result A → Type 0
NoFault (fault x) = ⊥
NoFault _ = Unit

-- A call that returns, if it does, just the error `x`.
abbrev pub RaisesOnly {ℓ} : {A : Type ℓ} → GoError → Result A → Type 0
RaisesOnly x (ok a) = ⊥
RaisesOnly x (err y) = y ≡ x
RaisesOnly x (fault f) = Unit
