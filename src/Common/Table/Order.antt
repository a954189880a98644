-- ===== src/Common/Table/Order.antt =====
-- Tables in which no key stands twice.
use mathlib.Core.List.{Perm, map}
use mathlib.Core.List.Perm
use mathlib.Core.Path.{◌≡◌, refl, sym, ◌∙◌, ap, subst}
use mathlib.Core.Bool.{Bool, true, false}
use Prim.Native.String.{String}
use mathlib.Core.Option.{Option, none, some}
use mathlib.Core.List.{List, [], ◌∷◌}
use text.Mathlib.Text.{◌==◌}
use text.Mathlib.TextEquality.{eq_iff}
use text.Mathlib.TextPositions.{eq_refl}
use go_mesos_executor.Common.Tests.{if◌then◌else◌}
use go_mesos_executor.Common.Table.{Table, lookup, erase, insert, lookup-erase}

if-true {κ} : {A : Type κ} (b : Bool) (x y : A) → b ≡ true → (if b then x else y) ≡ x
if-true true x y h = refl
if-true false x y h = absurd (cc h)

module _ {ℓ} {V : Type ℓ} where
  abbrev pub values : Table V → List V
  values t = map (λ x. x.1) t

  -- No key stands twice.
  abbrev pub Unique : Table V → Type ℓ
  Unique [] = Unit
  Unique ((k, v) ∷ t) = (lookup k t ≡ none) × Unique t

  if-none : (b : Bool) (o : Option V) → o ≡ none → (if b then none else o) ≡ none
  if-none true o h = refl
  if-none false o h = h

  if-Unique : (b : Bool) (x y : Table V) → Unique x → Unique y → Unique (if b then x else y)
  if-Unique true x y p q = p
  if-Unique false x y p q = q

  pub erase-Unique : (k : String) (t : Table V) → Unique t → Unique (erase k t)
  unfolding erase
  erase-Unique k [] u = tt
  erase-Unique k ((j, v) ∷ t) u =
      if-Unique (j == k) (erase k t) ((j, v) ∷ erase k t) (erase-Unique k t u.1)
        (lookup-erase k j t ∙ if-none (k == j) (lookup j t) u.0, erase-Unique k t u.1)

  pub insert-Unique : (k : String) (v : V) (t : Table V) → Unique t → Unique (insert k v t)
  unfolding insert
  insert-Unique k v t u =
      (lookup-erase k k t ∙ if-true (k == k) none (lookup k t) (eq_refl k), erase-Unique k t u)

  kept :
      (b : Bool) (v : V) (o : Option V) (x y z : Table V)
      → (if b then some v else o) ≡ none
      → (o ≡ none → y ≡ z)
      → (if b then x else y) ≡ z
  kept true v o x y z h k = absurd (cc h)
  kept false v o x y z h k = k h

  pub erase-none : (k : String) (t : Table V) → lookup k t ≡ none → erase k t ≡ t
  unfolding erase lookup
  erase-none k [] h = refl
  erase-none k ((j, v) ∷ t) h =
      kept (j == k) v (lookup k t) (erase k t) ((j, v) ∷ erase k t) ((j, v) ∷ t) h
        (λ q. ap (λ l. (j, v) ∷ l) (erase-none k t q))

  taken :
      (b : Bool) (k j : String) (v w : V) (t : Table V)
      → (b ≡ true → j ≡ k)
      → lookup j t ≡ none
      → (lookup k t ≡ some v → Perm (values t) (v ∷ values (erase k t)))
      → (if b then some w else lookup k t) ≡ some v
      → Perm (w ∷ values t) (v ∷ values (if b then erase k t else (j, w) ∷ erase k t))
  taken true k j v w t e u rec h =
      subst (λ x. Perm (w ∷ values t) (x ∷ values (erase k t))) (cc h)
        (subst (λ l. Perm (w ∷ values t) (w ∷ values l))
          (sym (erase-none k t (subst (λ i. lookup i t ≡ none) (e refl) u))) (Perm.refl _))
  taken false k j v w t e u rec h =
      Perm.trans (Perm.cons w (rec h)) (Perm.swap v w (values (erase k t)))

  -- One entry, taken out.
  pub values-erase :
      (k : String) (v : V) (t : Table V)
      → Unique t
      → lookup k t ≡ some v
      → Perm (values t) (v ∷ values (erase k t))
  unfolding erase lookup
  values-erase k v [] u h = absurd (cc h)
  values-erase k v ((j, w) ∷ t) u h =
      taken (j == k) k j v w t (λ q. (eq_iff j k).0 q) u.0 (values-erase k v t u.1) h
