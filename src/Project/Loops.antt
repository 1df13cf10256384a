-- ===== src/Project/Loops.antt =====
-- `_expand_run_loops` of jobserv/project.py: a run with `loop-on` is replaced by a copy for each
-- combination of the values. The loop changes the list that it goes over, so the list is walked by
-- its index, with the length of what is left as fuel.
pub mod Expanded
mod Samples
use jobserv.Prelude.{
  ℕ, zero, suc, ◌+◌, Bool, true, false, not, Option, none, some, List, [], ◌∷◌, ◌++◌, map, flat_map,
  any, take, drop, length, Text, text, text_eq, store, lookup, Formatted, formatted, value_error,
  lookup_error, format, leb, if◌then◌else◌,
}

pub record Loop : Type 0 where
  pub param : Text
  pub values : List Text

pub record RunTrigger : Type 0 where
  pub name : Text
  pub run_names : Option Text

-- A run of a trigger, with what the expansion reads or writes; `rest` is the other members.
pub record LoopRun (A : Type 0) : Type 0 where
  pub name : Text
  pub loop_on : List Loop
  pub host_tag : Option Text
  pub params : List (Text × Text)
  pub triggers : List RunTrigger
  pub rest : A

-- `itertools.product(*values)`: the last of the values changes first.
unfoldable pub product : List (List Text) → List (List Text)
product [] = [] ∷ []
product (values ∷ more) =
    let combos = product more in flat_map (λ v. map (λ combo. v ∷ combo) combos) values

-- `"-".join(combo)`
unfoldable pub join : List Text → Text
join [] = []
join (t ∷ []) = t
join (t ∷ u ∷ ts) = t ++ b'-' ∷ join (u ∷ ts)

-- `t.format(…)`; `none` is an exception.
of_formatted : Formatted → Option Text
of_formatted (formatted t) = some t
of_formatted value_error = none
of_formatted lookup_error = none

unfoldable pub both : {B C : Type 0} → Option B → Option C → Option (B × C)
both none c = none
both (some b) none = none
both (some b) (some c) = some (b, c)

-- `t.get("run-names")`, where it is given.
unfoldable pub run_names_of : Text → Option Text → Option (Option Text)
unfolding of_formatted
run_names_of loop none = some none
run_names_of loop (some []) = some (some [])
run_names_of loop (some (c ∷ names)) =
    elim (of_formatted
      (format ((text "name", text "{name}") ∷ (text "loop", loop) ∷ []) (c ∷ names))) [
        | none ↦ none
        | some rname ↦ some (some rname)
      ]

-- The loop over the triggers of a copy.
unfoldable pub name_triggers : Text → List RunTrigger → Option (List RunTrigger)
unfolding both run_names_of of_formatted
name_triggers loop [] = some []
name_triggers loop (t ∷ ts) =
    let named =
      both (of_formatted (format ((text "loop", loop) ∷ []) t.name))
        (run_names_of loop t.run_names) in
    elim (both named (name_triggers loop ts)) [
      | none ↦ none
      | some ((name, run_names), more) ↦ some (record { name = name; run_names = run_names } ∷ more)
    ]

module _ {A : Type 0} where
  -- The value of one of the names: `host-tag` is a member of the run, any other a param.
  unfoldable pub set_value : Text → Text → LoopRun A → LoopRun A
  set_value name val r =
      if text_eq name (text "host-tag")
      then record r { host_tag = some val }
      else record r { params = store name val r.params }

  unfoldable pub set_values : List Loop → List Text → LoopRun A → LoopRun A
  unfolding set_value
  set_values [] vals r = r
  set_values (l ∷ ls) [] r = r
  set_values (l ∷ ls) (val ∷ vals) r = set_values ls vals (set_value l.param val r)

  -- A copy with its name and its triggers.
  unfoldable pub copy_as :
      LoopRun A → List Text → Option (Text × List RunTrigger) → Option (LoopRun A)
  unfolding set_values
  copy_as run combo none = none
  copy_as run combo (some (name, triggers)) =
      some (
        set_values run.loop_on combo
          (record run { name = name; loop_on = []; triggers = triggers }))

  -- The copy for one combination.
  unfoldable pub copy_run : LoopRun A → List Text → Option (LoopRun A)
  unfolding both of_formatted copy_as
  copy_run run combo =
      let loop = join combo in
      let named = of_formatted (format ((text "loop", loop) ∷ []) run.name) in
      copy_as run combo (both named (name_triggers loop run.triggers))

  unfoldable pub add_copy :
      Option (LoopRun A) → Option (List (LoopRun A)) → Option (List (LoopRun A))
  add_copy none rs = none
  add_copy (some r) none = none
  add_copy (some r) (some rs) = some (r ∷ rs)

  unfoldable pub copies_of : LoopRun A → List (List Text) → Option (List (LoopRun A))
  unfolding add_copy
  copies_of run [] = some []
  copies_of run (combo ∷ combos) = add_copy (copy_run run combo) (copies_of run combos)

  -- `if loop`
  unfoldable pub loops : LoopRun A → Bool
  loops r = elim r.loop_on [ [] ↦ false | l ∷ ls ↦ true ]

  unfoldable pub copies : LoopRun A → Option (List (LoopRun A))
  unfolding copies_of
  copies run = copies_of run (product (map (λ l. l.values) run.loop_on))

  -- `runs.index(run)`, for the equality of the dictionaries.
  unfoldable pub index : (LoopRun A → LoopRun A → Bool) → LoopRun A → List (LoopRun A) → ℕ
  index same run [] = 0
  index same run (r ∷ rs) = if same r run then 0 else suc (index same run rs)

  -- `runs.remove(run)`
  unfoldable pub remove :
      (LoopRun A → LoopRun A → Bool) → LoopRun A → List (LoopRun A) → List (LoopRun A)
  remove same run [] = []
  remove same run (r ∷ rs) = let rest = remove same run rs in if same r run then rs else r ∷ rest

  -- The copies are inserted at the index of the run, one after the other, and the run is removed.
  unfoldable pub replace_run :
      (LoopRun A → LoopRun A → Bool)
      → LoopRun A
      → List (LoopRun A)
      → List (LoopRun A)
      → List (LoopRun A)
  unfolding index remove
  replace_run same run copied runs =
      let i = index same run runs in remove same run (take i runs ++ copied ++ drop i runs)

  unfoldable pub with_copies :
      (LoopRun A → LoopRun A → Bool)
      → (List (LoopRun A) → Option (List (LoopRun A)))
      → List (LoopRun A)
      → LoopRun A
      → Option (List (LoopRun A))
      → Option (List (LoopRun A))
  unfolding replace_run
  with_copies same next runs run none = none
  with_copies same next runs run (some copied) = next (replace_run same run copied runs)

  -- The body of the loop for the run that the iterator is at, if there is one, with the rest of it.
  unfoldable pub expand_at :
      (LoopRun A → LoopRun A → Bool)
      → (List (LoopRun A) → Option (List (LoopRun A)))
      → List (LoopRun A)
      → List (LoopRun A)
      → Option (List (LoopRun A))
  unfolding copies with_copies
  expand_at same next runs [] = some runs
  expand_at same next runs (run ∷ later) =
      if loops run then with_copies same next runs run (copies run) else next runs

  -- `for run in trigger["runs"]`, at the run with the index `i`; `none` is an exception.
  unfoldable pub expand_from :
      (LoopRun A → LoopRun A → Bool) → ℕ → ℕ → List (LoopRun A) → Option (List (LoopRun A))
  unfolding expand_at
  expand_from same zero i runs = some runs
  expand_from same (suc fuel) i runs =
      expand_at same (λ changed. expand_from same fuel (suc i) changed) runs (drop i runs)

  -- `if len(run["name"]) >= 80`
  unfoldable pub has_long_name : List (LoopRun A) → Bool
  has_long_name runs = any (λ r. leb 80 (length r.name)) runs

  -- Enough steps for a run: those at its copies, and one more.
  unfoldable pub weight : LoopRun A → ℕ
  unfolding loops
  weight r = if loops r then suc (length (product (map (λ l. l.values) r.loop_on))) else 1

  unfoldable pub weights : List (LoopRun A) → ℕ
  weights [] = 0
  weights (r ∷ rs) = weight r + weights rs

  -- The expansion of the runs of one trigger.
  unfoldable pub expand_runs :
      (LoopRun A → LoopRun A → Bool) → List (LoopRun A) → Option (List (LoopRun A))
  unfolding expand_from weights
  expand_runs same runs = expand_from same (weights runs) 0 runs

-- How the expansion of the triggers ends, with their names and runs.
pub data Expansion (A : Type 0) : Type 0 where
  expanded : List (Text × List (LoopRun A)) → Expansion A
  schema_error raised : Expansion A

module _ {A : Type 0} where
  add_trigger : Text → List (LoopRun A) → Expansion A → Expansion A
  add_trigger name runs (expanded ts) = expanded ((name, runs) ∷ ts)
  add_trigger name runs schema_error = schema_error
  add_trigger name runs raised = raised

  after_expansion : Text → Option (List (LoopRun A)) → Expansion A → Expansion A
  unfolding add_trigger has_long_name
  after_expansion name none later = raised
  after_expansion name (some runs) later =
      if has_long_name runs then schema_error else add_trigger name runs later

  -- `_expand_run_loops`
  unfoldable pub expand_run_loops :
      (LoopRun A → LoopRun A → Bool) → List (Text × List (LoopRun A)) → Expansion A
  unfolding after_expansion expand_runs
  expand_run_loops same [] = expanded []
  expand_run_loops same ((name, runs) ∷ ts) =
      after_expansion name (expand_runs same runs) (expand_run_loops same ts)
