-- ===== src/Lifecycle/Samples.antt =====
-- A build that a trigger gives a run, which a worker takes and a user cancels.
use jobserv.Prelude.{◌+◌, false, [], text}
use jobserv.Models.{Build}
use jobserv.Queue.Claim.{claim}
use jobserv.Triggers.{Call, build_of, trigger_runs}
use jobserv.Fixtures.{named_build, sample_definition, sample_target, sample_secrets, build_trigger}

abbrev call : Call
call = record {
  now = 5;
  projdef = sample_definition;
  allowed_host_tags = [];
  trigger = build_trigger;
  params = [];
  secrets = sample_secrets;
  queue_priority = 0;
  target = λ name key. record sample_target { run = name; api_key = key };
  fresh = λ i. (20 + i, text "key");
  seen = [];
}

abbrev fresh_build : Build
fresh_build = record named_build { runs = [] }

abbrev triggered_build : Build
triggered_build = build_of (trigger_runs call fresh_build)

abbrev claimed_build : Build
claimed_build = (claim 6 (text "lab1") (λ i. false) 20 triggered_build).0
