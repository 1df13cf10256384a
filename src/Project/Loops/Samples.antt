-- ===== src/Project/Loops/Samples.antt =====
-- A run that loops over a distribution and a host tag.
use jobserv.Prelude.{
  ℕ, ◌≡◌, refl, Bool, true, false, ◌&&◌, none, some, List, [], ◌∷◌, ◌++◌, Text, text, text_eq,
  text_eq_refl, store, lookup, format, arith,
}
use mathlib.Core.List.{flat_map}
use jobserv.Project.Loops.{
  Loop, LoopRun, product, join, copy_run, loops, weight, name_triggers, expand_runs,
}
use jobserv.Project.Loops.Expanded.{IsEquality, expand_each, expand_runs-each}

abbrev run : Text → List Loop → LoopRun ℕ
run name loop_on = record {
  name = name;
  loop_on = loop_on;
  host_tag = none;
  params = [];
  triggers = [];
  rest = 0;
}

abbrev loop : List Loop
loop =
    record { param = text "OS"; values = text "a" ∷ text "b" ∷ [] }
    ∷ record { param = text "host-tag"; values = text "arm" ∷ [] }
    ∷ []

abbrev runs : List (LoopRun ℕ)
runs = run (text "first") [] ∷ run (text "t-{loop}") loop ∷ run (text "last") [] ∷ []

abbrev same_bool : Bool → Bool → Bool
same_bool true b = b
same_bool false true = false
same_bool false false = true

-- Runs compared by their names and by whether they have loops.
abbrev same : LoopRun ℕ → LoopRun ℕ → Bool
same r s = text_eq r.name s.name && same_bool (loops r) (loops s)

same_bool_refl : (b : Bool) → same_bool b b ≡ true
same_bool_refl true = refl
same_bool_refl false = refl

same_bool→eq : (a b : Bool) (n : Bool) → n && same_bool a b ≡ true → a ≡ b
same_bool→eq true true n h = refl
same_bool→eq false false n h = refl
same_bool→eq true false n h = absurd (ground (arith, h))
same_bool→eq false true n h = absurd (ground (arith, h))

same-IsEquality : IsEquality same
same-IsEquality = record {
  same_refl = λ r. rw (text_eq_refl r.name, same_bool_refl (loops r)) refl;
  same-loops = λ r s. same_bool→eq (loops r) (loops s) (text_eq r.name s.name);
}

expand_runs-each_example : expand_runs same runs ≡ expand_each runs
unfolding product flat_map
expand_runs-each_example =
    expand_runs-each same runs same-IsEquality (omega arith, (omega arith, (omega arith, tt)))

abbrev copy : Text → LoopRun ℕ
copy os = record (run (text "t-" ++ os ++ text "-arm") []) {
  host_tag = some (text "arm");
  params = (text "OS", os) ∷ [];
}

two_copies :
    expand_runs same runs
    ≡ some (run (text "first") [] ∷ copy (text "a") ∷ copy (text "b") ∷ run (text "last") [] ∷ [])
unfolding expand_runs product join copy_run loops format text_eq lookup store flat_map weight
    name_triggers
two_copies = refl
