-- ===== src/Fixtures.antt =====
-- Records for the tests: a synchronous project with two builds and its definition, and a worker.
use jobserv.Prelude.{
  ℕ, ◌≡◌, refl, true, false, split, strip, fnmatch, false, none, some, [], ◌∷◌, text,
}
use jobserv.Status.{BuildStatus, is, queued, running, passed}
use jobserv.Models.{Run, Build, Project, Db}
use jobserv.Workers.{Worker, stripped_tags}
use jobserv.Queue.{
  Row, find_work, select_rows, order_rows, before, scan, runnable, see, active, worker_tags,
}
use jobserv.Project.{
  Dict, Follow, RunSpec, Trigger, ProjectDefinition, Target, script, script_repo, git_poller,
  simple,
}

abbrev pub sample_run : ℕ → BuildStatus → Run
sample_run id s = record {
  id = id;
  name = text "compile";
  status = s;
  running_acked = true;
  api_key = text "secret";
  trigger = none;
  meta = none;
  worker_name = none;
  queue_priority = 0;
  host_tag = text "amd64";
  status_events = [];
  tests = [];
}

abbrev pub sample_build : Build
sample_build = record {
  id = 10;
  build_id = 1;
  proj_id = 1;
  status = running;
  trigger_name = text "git";
  name = none;
  annotation = none;
  runs = sample_run 1 passed ∷ sample_run 2 running ∷ sample_run 3 queued ∷ [];
  status_events = [];
}

-- A newer build of the same project, with one run that waits.
abbrev pub newer_build : Build
newer_build = record sample_build {
  id = 11;
  build_id = 2;
  status = queued;
  runs = sample_run 4 queued ∷ [];
}

abbrev pub sample_project : Project
sample_project = record {
  id = 1;
  name = text "lmp";
  synchronous_builds = true;
  allowed_host_tags = [];
}

abbrev pub sample_db : Db
sample_db = record { projects = sample_project ∷ []; builds = newer_build ∷ sample_build ∷ [] }

abbrev pub sample_worker : Worker
sample_worker = record {
  name = text "lab1";
  distro = text "debian";
  mem_total = 1024;
  cpu_total = 4;
  cpu_type = text "x86";
  enlisted = true;
  concurrent_runs = 1;
  host_tags = text "arm64, amd64";
  online = true;
  surges_only = false;
  deleted = false;
}

-- A trigger whose run, once passed, starts a second trigger.
abbrev pub test_follow : Follow
test_follow = record { name = text "test"; run_names = some (text "{name}-qa") }

abbrev pub build_spec : RunSpec
build_spec = record {
  name = text "build";
  host_tag = text "AMD64";
  source = script_repo (text "git");
  container_auth = none;
  params = [];
  triggers = test_follow ∷ [];
}

abbrev pub test_spec : RunSpec
test_spec = record build_spec { name = text "test"; source = script (text "check"); triggers = [] }

abbrev pub build_trigger : Trigger
build_trigger = record {
  name = text "git";
  type = git_poller;
  run_names = none;
  params = [];
  runs = build_spec ∷ [];
  triggers = [];
}

abbrev pub test_trigger : Trigger
test_trigger = record build_trigger { name = text "test"; type = simple; runs = test_spec ∷ [] }

abbrev pub sample_definition : ProjectDefinition
sample_definition = record {
  timeout = 10;
  scripts = (text "check", text "make check") ∷ [];
  script_repos = (text "git", record { token = some (text "tok") }) ∷ [];
  params = [];
  triggers = build_trigger ∷ test_trigger ∷ [];
}

abbrev pub sample_target : Target
sample_target = record {
  project = text "lmp";
  build = text "1";
  run = text "build";
  api_key = text "secret";
}

abbrev pub sample_secrets : Dict
sample_secrets = (text "tok", text "x") ∷ []

-- A build with one run.
abbrev pub named_build : Build
named_build = record sample_build { runs = sample_run 1 running ∷ [] }

-- The run that the worker gets of these.
abbrev pub chosen : Row
chosen = record {
  run_id = 3;
  build_id = 10;
  status = queued;
  proj_id = 1;
  sync = true;
  tag = text "amd64";
  queue_priority = 0;
}

pub sample_work : find_work sample_worker sample_db ≡ some chosen
unfolding find_work select_rows order_rows before scan runnable see active worker_tags stripped_tags
    split strip fnmatch is
sample_work = refl
