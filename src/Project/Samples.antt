-- ===== src/Project/Samples.antt =====
-- Definitions of a small project.
use mathlib.Core.List.{Memᴰ, flat_map}
use jobserv.Prelude.{◌≡◌, ◌≤◌, refl, inr, none, some, [], ◌∷◌, text, lower, lookup, text_eq}
use jobserv.Project.{
  RunDefinition, test_recursive_triggers, follows, check_trigger_depth, last_or_named, env_of,
  git_poller,
}
use jobserv.Project.Env.{lookup-env_of}
use jobserv.Project.Depth.{Chain, Chain-bound}
use jobserv.Fixtures.{sample_definition, sample_secrets, build_spec, build_trigger, test_follow}

params_last :
    lookup (text "X") (
      env_of []
        ((text "X", text "1") ∷ [])
        ((text "X", text "2") ∷ [])
        []
        (text "lmp")
        (text "1")
        (text "build"))
    ≡ some (text "2")
unfolding lookup text_eq
params_last =
    lookup-env_of [] ((text "X", text "1") ∷ []) ((text "X", text "2") ∷ []) [] (text "lmp")
      (text "1") (text "build") (text "X") tt (refl, tt) (refl, tt) tt

abbrev build_definition : RunDefinition
build_definition = record {
  project = text "lmp";
  timeout = 10;
  api_key = text "secret";
  trigger_type = git_poller;
  script = none;
  env = env_of [] [] [] [] (text "lmp") (text "1") (text "build");
  secrets = sample_secrets;
  host_tag = lower (text "AMD64");
}

Chain-bound_example : 1 ≤ 2
unfolding test_recursive_triggers follows check_trigger_depth last_or_named flat_map text_eq
Chain-bound_example =
    Chain-bound sample_definition.triggers build_trigger test_follow 1 refl (Memᴰ.head refl)
      (inr (build_spec, Memᴰ.head refl, Memᴰ.head refl)) (Chain.one test_follow)
