-- ===== src/Common/Names.antt =====
-- Equality of texts is decidable.
use Prim.Native.String.{String}
use mathlib.Core.Path.{sym, ◌∙◌}
use mathlib.Core.Bool.{false≢true}
use mathlib.Core.Logic.{inl, inr}
use text.Mathlib.Text.{◌==◌}
use text.Mathlib.TextEquality.{eq_iff}
use go_mesos_executor.Common.Tests.{Bool-cases}

unfoldable pub String-discrete : Discrete String
String-discrete s t = elim (Bool-cases (s == t)) [
  | inl same ↦ yes ((eq_iff s t).0 same)
  | inr differ ↦ no (λ e. false≢true (sym differ ∙ (eq_iff s t).1 e))
]
