-- ===== src/BuildApi/Samples.antt =====
-- Runs at small inputs.
use jobserv.Prelude.{
  ◌+◌, ◌≡◌, ◌≤◌, ◌<◌, refl, false, none, some, List, [], ◌∷◌, text, text_eq, lookup, store,
  starts_with, arith,
}
use jobserv.Status.{queued}
use jobserv.Models.{Build}
use jobserv.Fixtures.{
  sample_build, newer_build, build_trigger, sample_definition, sample_secrets, sample_target,
}
use jobserv.Project.{Trigger, update}
use jobserv.Triggers.{Call}
use jobserv.BuildApi.Triggering.{LeftBy, trigger_build, trigger_build-LeftBy}
use jobserv.BuildApi.{
  ProjectTrigger, BuildRequest, build_secrets, type_secrets, id_secrets, remove, wanted_type,
  of_type, ends_with,
}
use jobserv.BuildApi.Numbers.{
  NewBuild, new_build, is_taken, last_build_id, create, try_build_ids, IsNumbered,
  create-IsNumbered, create-free,
}
use jobserv.BuildApi.Secrets.{build_secrets_lem}

abbrev number : NewBuild
number = record {
  id = 12;
  proj_id = 1;
  init_event_status = queued;
  trigger_name = text "git";
  now = 7;
}

-- Another request takes the number 3 in between.
abbrev other : Build
other = record newer_build { id = 13; build_id = 3 }

abbrev table : List Build
table = other ∷ newer_build ∷ sample_build ∷ []

numbered : IsNumbered table
unfolding is_taken
numbered = (refl, (refl, (refl, tt)))

fourth :
    create number (newer_build ∷ sample_build ∷ []) (λ i. table)
    ≡ some (new_build number 4, (other ∷ newer_build ∷ sample_build ∷ new_build number 4 ∷ []))
unfolding create try_build_ids is_taken last_build_id
fourth = refl

create-IsNumbered_example :
    IsNumbered (other ∷ newer_build ∷ sample_build ∷ new_build number 4 ∷ [])
    × (last_build_id 1 (newer_build ∷ sample_build ∷ []) < 4)
    × (4 ≤ last_build_id 1 (newer_build ∷ sample_build ∷ []) + 10)
unfolding new_build
create-IsNumbered_example =
    create-IsNumbered number (newer_build ∷ sample_build ∷ []) (λ i. table) (new_build number 4)
      (other ∷ newer_build ∷ sample_build ∷ new_build number 4 ∷ []) (λ i h. numbered) fourth

some_number :
    (b : Build) × (t : List Build) × (create number (newer_build ∷ sample_build ∷ []) (λ i. table)
      ≡ some (b, t))
unfolding is_taken last_build_id
some_number = create-free number (newer_build ∷ sample_build ∷ []) (λ i. table) 1 (omega arith) refl

abbrev poller : ProjectTrigger
poller = record {
  id = 4;
  type = text "git_poller";
  secret_data = (text "webhook-key", text "abc") ∷ [];
}

abbrev request : BuildRequest
request = record {
  trigger_type = some (text "git_poller-optional");
  trigger_id = none;
  secrets = (text "triggered-by", text "nobody") ∷ [];
}

build_secrets_lem_example :
    lookup
      (text "triggered-by")
      ((text "triggered-by", text "andy") ∷ (text "webhook-key", text "abc") ∷ [])
    ≡ some (text "andy")
unfolding build_secrets type_secrets id_secrets wanted_type of_type ends_with starts_with text_eq
    lookup store update remove
build_secrets_lem_example =
    build_secrets_lem (some (text "andy")) (poller ∷ []) request
      ((text "webhook-key", text "abc") ∷ []) []
      ((text "triggered-by", text "andy") ∷ (text "webhook-key", text "abc") ∷ [])
      (text "triggered-by") (refl, tt) tt (refl, tt) refl refl refl

abbrev call : Trigger → Call
call t = record {
  now = 5;
  projdef = sample_definition;
  allowed_host_tags = [];
  trigger = t;
  params = [];
  secrets = sample_secrets;
  queue_priority = 0;
  target = λ name key. record sample_target { run = name; api_key = key };
  fresh = λ i. (20 + i, text "key");
  seen = [];
}

trigger_build-LeftBy_example : LeftBy false (
    trigger_build
      (build_trigger ∷ [])
      call
      false
      (30, text "key")
      number
      (newer_build ∷ [])
      (λ i. table))
trigger_build-LeftBy_example =
    trigger_build-LeftBy (build_trigger ∷ []) call false (30, text "key") number (newer_build ∷ [])
      (λ i. table)
