-- ===== src/Triggers/Samples.antt =====
-- The runs of a small trigger are added to a build.
use jobserv.Prelude.{◌+◌, none, [], text}
use jobserv.Triggers.{Call, trigger_runs}
use jobserv.Triggers.Added.{AddsAll, trigger_runs-AddsAll}
use jobserv.Fixtures.{named_build, sample_definition, sample_target, sample_secrets, build_trigger}

abbrev call : Call
call = record {
  now = 5;
  projdef = sample_definition;
  allowed_host_tags = [];
  trigger = build_trigger;
  params = [];
  secrets = sample_secrets;
  queue_priority = 0;
  target = λ name key. record sample_target { run = name; api_key = key };
  fresh = λ i. (20 + i, text "key");
  seen = [];
}

trigger_runs-AddsAll_example :
    AddsAll none build_trigger.runs named_build (trigger_runs call named_build)
trigger_runs-AddsAll_example = trigger_runs-AddsAll call named_build
