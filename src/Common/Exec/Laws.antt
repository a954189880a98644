-- ===== src/Common/Exec/Laws.antt =====
-- Laws of code put together from calls: what holds of the parts holds of the whole.
use mathlib.Core.Path.{◌≡◌, refl, ◌∙◌}
use mathlib.Core.Bool.{Bool, true, false}
use go_mesos_executor.Common.Tests.{if◌then◌else◌}
use go_mesos_executor.Common.Exec.Monad.{
  GoError, Result, ok, err, fault, Exec, raise, continue, settle, drop_error, NoError, RaisesOnly,
}

module _ {ℓ κ μ} {S : Type ℓ} {A : Type κ} {B : Type μ} where
  pub continue-cong :
      (r : Result A × S) (f g : A → Exec S B)
      → ((a : A) (s : S) → f a s ≡ g a s)
      → continue r f ≡ continue r g
  continue-cong (ok a, s) f g h = h a s
  continue-cong (err e, s) f g h = refl
  continue-cong (fault x, s) f g h = refl

  pub continue_assoc {ν} :
      {C : Type ν} (r : Result A × S) (f : A → Exec S B) (g : B → Exec S C)
      → continue (continue r f) g ≡ continue r (λ a s. continue (f a s) g)
  continue_assoc (ok a, s) f g = refl
  continue_assoc (err e, s) f g = refl
  continue_assoc (fault x, s) f g = refl

  pub NoError-continue :
      (r : Result A × S) (f : A → Exec S B)
      → NoError r.0
      → ((a : A) (s : S) → NoError (f a s).0)
      → NoError (continue r f).0
  NoError-continue (ok a, s) f n h = h a s
  NoError-continue (err e, s) f n h = absurd n
  NoError-continue (fault x, s) f n h = tt

  -- What returned a value went through both parts.
  pub record Went (r : Result A × S) (f : A → Exec S B) (b : B) (s' : S) : Type (ℓ ⊔ κ ⊔ μ) where
    pub value : A
    pub state : S
    pub first : r ≡ (ok value, state)
    pub second : f value state ≡ (ok b, s')

  pub continue-ok :
      (r : Result A × S) (f : A → Exec S B) (b : B) (s' : S)
      → continue r f ≡ (ok b, s')
      → Went r f b s'
  continue-ok (ok a, s) f b s' p = record { value = a; state = s; first = refl; second = p }
  continue-ok (err e, s) f b s' p = absurd (cc p)
  continue-ok (fault x, s) f b s' p = absurd (cc p)

-- A view of the state that two steps in a row leave alone.
module _ {ℓ κ μ ν} {S : Type ℓ} {A : Type κ} {B : Type μ} {V : Type ν} (view : S → V) where
  pub continue-keeps :
      {v : V} (r : Result A × S) (f : A → Exec S B)
      → view r.1 ≡ v
      → ((a : A) (s : S) → view (f a s).1 ≡ view s)
      → view (continue r f).1 ≡ v
  continue-keeps (ok a, s) f e h = h a s ∙ e
  continue-keeps (err x, s) f e h = e
  continue-keeps (fault x, s) f e h = e

module _ {ℓ κ μ ν} {S : Type ℓ} {A : Type κ} {B : Type μ} (C : Type ν) where
  pub settle-ok :
      (r : Result A × S) (g : GoError → Exec S B) (f : A → Exec S B) {b : B} {s' : S}
      → ((e : GoError) (s : S) → g e s ≡ (ok b, s') → C)
      → ((a : A) (s : S) → r ≡ (ok a, s) → f a s ≡ (ok b, s') → C)
      → settle r g f ≡ (ok b, s')
      → C
  settle-ok (ok a, s) g f k h p = h a s refl p
  settle-ok (err e, s) g f k h p = k e s p
  settle-ok (fault x, s) g f k h p = absurd (cc p)

-- A guard that did not raise has let the rest run.
module _ {ℓ κ} {S : Type ℓ} {A : Type κ} where
  pub guard-ok :
      (b : Bool) (e : GoError) (m : Exec S A) (s : S) {a : A} {s' : S}
      → (if b then raise e else m) s ≡ (ok a, s')
      → m s ≡ (ok a, s')
  guard-ok true e m s p = absurd (cc p)
  guard-ok false e m s p = p

-- What holds of the state, through each way to put code together.
module _ {ℓ κ μ ν} {S : Type ℓ} {A : Type κ} {B : Type μ} (P : S → Type ν) where
  pub continue-preserves :
      (r : Result A × S) (f : A → Exec S B)
      → P r.1
      → ((a : A) (s : S) → P s → P (f a s).1)
      → P (continue r f).1
  continue-preserves (ok a, s) f p h = h a s p
  continue-preserves (err e, s) f p h = p
  continue-preserves (fault x, s) f p h = p

  pub settle-preserves :
      (r : Result A × S) (g : GoError → Exec S B) (f : A → Exec S B)
      → P r.1
      → ((e : GoError) (s : S) → P s → P (g e s).1)
      → ((a : A) (s : S) → P s → P (f a s).1)
      → P (settle r g f).1
  settle-preserves (ok a, s) g f p k h = h a s p
  settle-preserves (err e, s) g f p k h = k e s p
  settle-preserves (fault x, s) g f p k h = p

module _ {ℓ κ ν} {S : Type ℓ} {A : Type κ} (P : S → Type ν) where
  pub drop_error-preserves : (r : Result A × S) → P r.1 → P (drop_error r).1
  drop_error-preserves (ok a, s) p = p
  drop_error-preserves (err e, s) p = p
  drop_error-preserves (fault x, s) p = p

-- Where an error that came back was made.
module _ {ℓ κ μ ν} {S : Type ℓ} {A : Type κ} {B : Type μ} (P : GoError → S → Type ν) where
  pub continue-err :
      (r : Result A × S) (f : A → Exec S B) {x : GoError} {s' : S}
      → (r ≡ (err x, s') → P x s')
      → ((a : A) (s : S) → f a s ≡ (err x, s') → P x s')
      → continue r f ≡ (err x, s')
      → P x s'
  continue-err (ok a, s) f k h p = h a s p
  continue-err (err e, s) f k h p = k (cc p)
  continue-err (fault x, s) f k h p = absurd (cc p)

  pub settle-err :
      (r : Result A × S) (g : GoError → Exec S B) (f : A → Exec S B) {x : GoError} {s' : S}
      → ((e : GoError) (s : S) → g e s ≡ (err x, s') → P x s')
      → ((a : A) (s : S) → f a s ≡ (err x, s') → P x s')
      → settle r g f ≡ (err x, s')
      → P x s'
  settle-err (ok a, s) g f k h p = h a s p
  settle-err (err e, s) g f k h p = k e s p
  settle-err (fault x, s) g f k h p = absurd (cc p)

module _ {ℓ κ} {S : Type ℓ} {A : Type κ} where
  pub drop_error-NoError : (r : Result A × S) → NoError (drop_error r).0
  drop_error-NoError (ok a, s) = tt
  drop_error-NoError (err e, s) = tt
  drop_error-NoError (fault x, s) = tt

module _ {ℓ κ μ} {S : Type ℓ} {A : Type κ} {B : Type μ} where
  pub RaisesOnly-continue :
      (x : GoError) (r : Result A × S) (f : A → Exec S B)
      → NoError r.0
      → ((a : A) (s : S) → RaisesOnly x (f a s).0)
      → RaisesOnly x (continue r f).0
  RaisesOnly-continue x (ok a, s) f n h = h a s
  RaisesOnly-continue x (err e, s) f n h = absurd n
  RaisesOnly-continue x (fault y, s) f n h = tt
