-- ===== src/Monitor/Samples.antt =====
-- A worker that is late, and a run that nobody acknowledged.
use jobserv.Prelude.{◌+◌, false, none, List, [], ◌∷◌, Text, text}
use jobserv.RunApi.Followups.{Stored}
use jobserv.Status.{running}
use jobserv.Models.{Run, Build}
use jobserv.Fixtures.{sample_run, sample_build, sample_definition, sample_secrets, sample_target}
use jobserv.Monitor.{Stat}

abbrev big_log : Stat
big_log = record { mtime = 100; size = 2000000 }

abbrev silent_run : Run
silent_run = record (sample_run 5 running) {
  running_acked = false;
  status_events = record { time = 100; status = running; worker_name = none } ∷ [];
}

abbrev silent_build : Build
silent_build = record sample_build { runs = silent_run ∷ [] }

abbrev stored : Stored
stored = record {
  now = 90000;
  projdef = sample_definition;
  secrets = sample_secrets;
  env = [];
  build_params = [];
  url = text "/runs/";
  allowed_host_tags = [];
  target = λ name key. record sample_target { run = name; api_key = key };
  fresh = λ k i. (20 + k + i, text "key");
}

abbrev lines_of : Text → List Text
lines_of log = log ∷ []
