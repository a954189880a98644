-- ===== src/Hook/Acl/LabelKey.antt =====
-- The keys of labels that hook/acl.go reads: the expression `EXECUTOR_([0-9]+)_ACL` anywhere in a
-- key, and the index that its digits stand for.
use Prim.Native.Char.{Char, code}
use go_mesos_executor.Common.{
  ℕ, ◌+◌, ◌-◌, ◌*◌, ◌^◌, ◌≡◌, refl, String, ◌<>◌, Bool, Option, none, some, ltb, leb, ◌==◌, ◌&&◌,
  if◌then◌else◌,
}

abbrev is_digit : Char → Bool
is_digit c = leb 48 (code c) && leb (code c) 57

-- What follows a prefix.
after : String → String → Option String
after String.[] s = some s
after (String.◌∷◌ p ps) String.[] = none
after (String.◌∷◌ p ps) (String.◌∷◌ c s) =
    let rest = after ps s in if code p == code c then rest else none

-- The digits at the start, as many as there are, after `word`; and the rest.
take_digits : String → String → String × String
take_digits word String.[] = (word, String.[])
take_digits word (String.◌∷◌ c s) =
    let rest = take_digits (word <> String.◌∷◌ c String.[]) s in
    if is_digit c then rest else (word, String.◌∷◌ c s)

-- At least one digit, then "_ACL".
abbrev closed : String × String → Option String
closed (String.[], s) = none
closed (String.◌∷◌ d ds, s) = elim (after "_ACL" s) [
  | none ↦ none
  | some _ ↦ some (String.◌∷◌ d ds)
]

-- A match at the start of the text, as its group.
match_here : String → Option String
unfolding after take_digits
match_here s = elim (after "EXECUTOR_" s) [ none ↦ none | some rest ↦ closed (take_digits "" rest) ]

-- `FindStringSubmatch(s)[1]` of the first match, or none.
unfoldable pub find_port_index : String → Option String
unfolding match_here
find_port_index String.[] = none
find_port_index (String.◌∷◌ c s) =
    let rest = find_port_index s in
    elim (match_here (String.◌∷◌ c s)) [ none ↦ rest | some digits ↦ some digits ]

number_onto : ℕ → String → ℕ
number_onto n String.[] = n
number_onto n (String.◌∷◌ c s) = number_onto (10 * n + (code c - 48)) s

-- `strconv.Atoi` of a text of digits: none if it is out of the range of a 64-bit int.
unfoldable pub atoi : String → Option ℕ
unfolding number_onto
atoi digits = if ltb (number_onto 0 digits) (2 ^ 63) then some (number_onto 0 digits) else none

find_port_index_runs : find_port_index "xEXECUTOR_12_ACLx" ≡ some "12"
unfolding find_port_index
find_port_index_runs = refl

find_port_index-none : find_port_index "EXECUTOR__ACL" ≡ none
unfolding find_port_index
find_port_index-none = refl

atoi_runs : atoi "007" ≡ some 7
unfolding atoi
atoi_runs = refl
