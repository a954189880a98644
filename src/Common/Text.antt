-- ===== src/Common/Text.antt =====
-- Go's text operations: decimal printing, `strings.Split` on one character.
use Prim.Native.Nat.{ℕ, zero, suc, ◌/◌, ◌%◌}
use Prim.Native.Char.{code}
use Prim.Native.String.{String, ◌++◌ as ◌<>◌}
use mathlib.Core.Path.{◌≡◌, refl}
use mathlib.Core.List.{List, [], ◌∷◌}
use go_mesos_executor.Common.Tests.{◌==◌, if◌then◌else◌}
use go_mesos_executor.Common.Int.{ℤ, pos, negsuc}

digit : ℕ → String
digit zero = "0"
digit (suc zero) = "1"
digit (suc (suc zero)) = "2"
digit (suc (suc (suc zero))) = "3"
digit (suc (suc (suc (suc zero)))) = "4"
digit (suc (suc (suc (suc (suc zero))))) = "5"
digit (suc (suc (suc (suc (suc (suc zero)))))) = "6"
digit (suc (suc (suc (suc (suc (suc (suc zero))))))) = "7"
digit (suc (suc (suc (suc (suc (suc (suc (suc zero)))))))) = "8"
digit _ = "9"

-- The digits of `n` before `acc`. A number has fewer digits than its successor, the fuel.
digits_onto : ℕ → ℕ → String → String
digits_onto zero n acc = acc
digits_onto (suc f) n acc =
    let rest = digits_onto f (n / 10) (digit (n % 10) <> acc) in
    if n / 10 == 0 then digit (n % 10) <> acc else rest

-- `strconv.Itoa` and `%d` of a number that is not negative
unfoldable pub itoa : ℕ → String
unfolding digits_onto digit
itoa n = digits_onto (suc n) n ""

-- `%d`
unfoldable pub itoa_ℤ : ℤ → String
unfolding itoa
itoa_ℤ (pos n) = itoa n
itoa_ℤ (negsuc n) = "-" <> itoa (suc n)

split_onto : ℕ → String → String → List String
split_onto sep word String.[] = word ∷ []
split_onto sep word (String.◌∷◌ c s) =
    let cut = split_onto sep "" s in
    let keep = split_onto sep (word <> String.◌∷◌ c String.[]) s in
    if code c == sep then word ∷ cut else keep

-- `strings.Split(s, sep)` for a separator of one character, given by its code
unfoldable pub split : ℕ → String → List String
unfolding split_onto
split sep s = split_onto sep "" s

itoa_runs : itoa 30020 ≡ "30020"
unfolding itoa
itoa_runs = refl

split_runs : split b' ' "! -i docker0  x" ≡ "!" ∷ "-i" ∷ "docker0" ∷ "" ∷ "x" ∷ []
unfolding split
split_runs = refl
