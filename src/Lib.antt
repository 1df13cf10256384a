-- ===== src/Lib.antt =====
-- A model of jobserv, a continuous integration service, and the theorems about it.
--
-- The server (jobserv/) keeps projects, their builds, the runs of a build and the tests of a run in
-- a database. Workers (jobserv_worker.py) ask it for runs, and a runner (runner/) reports the
-- state of a run back; a monitor (jobserv/worker.py) looks after workers and runs, and a poller
-- (jobserv/git_poller.py) starts builds for changes in git. A run that has passed, or a build that
-- has passed, may start the runs of further triggers of its project.
--
-- The parts, and the code that each models:
--
--   Status     jobserv/models.py: BuildStatus, StatusMixin.complete, get_cumulative_status.
--   Models     jobserv/models.py: the rows of projects, builds, runs, tests and events as records,
--              Build.refresh_status, Run.set_status, Run.cancel, TestResult.__init__,
--              Run.derive_fernet_token, and
--              build_cancel of jobserv/api/build.py. A build holds its runs, as the relationship of
--              the source does, and a run is found in it by the key of its row.
--   Workers    jobserv/models.py: Worker.available, Worker.in_queue_surge and the worker's tags.
--   Queue      jobserv/models.py: Run.pop_queued. `find_work` is the query and the loop over its
--              rows, `claim` the update that takes the run and the notes on the worker; they are
--              apart since other workers may act between the two statements.
--   Surge      jobserv/worker.py: _check_queue, with the flag files as a list of tags and times.
--   Monitor    jobserv/worker.py: _check_worker, _check_acked, _check_stuck, _check_cancelled and the
--              reports of _update_run, which the model of run_update answers.
--   Notify     jobserv/notify.py: the mails and their sending, the statistics of builds, and the web
--              hooks; the end of _handle_build_complete of jobserv/api/run.py, which asks for them.
--   ProjectApi jobserv/api/project.py: projects, the history of a run and triggers, with
--              ProjectTrigger of jobserv/models.py.
--   Lifecycle  the operations of the other parts on one build, as the steps of a relation, and the
--              builds that are reached by them.
--   Project    jobserv/project.py: get_run_definition, get_trigger, the validation of sources and
--              host tags, the test of recursive triggers, and _expand_run_loops. A definition is a
--              record of what the schema lets pass.
--   Triggers   jobserv/trigger.py: trigger_runs, with each way that it can end as an `Outcome`.
--   RunApi     jobserv/api/run.py: run_update, with _authenticate_runner, _running_tests,
--              _failed_tests, _handle_triggers, _handle_build_complete and _create_triggers; run_rerun
--              and the secrets that _get_run_def shows.
--   BuildApi   jobserv/api/build.py: what build_create makes of secrets, build_patch, build_promote,
--              build_get_latest and external_build_create; Build.create; jobserv/trigger.py: trigger_build and
--              _fail_unexpected.
--   TestApi    jobserv/api/test.py: test_create and test_update; Test.set_status.
--   WorkerApi  jobserv/api/worker.py: worker_authenticated, worker_create, worker_update,
--              worker_get and the loop of worker_deleted_volumes; jobserv/worker_jwt.py: worker_from_jwt.
--   WorkerScript jobserv_worker.py: _handle_run, cmd_check and cmd_loop, the locks of RunLocks, the
--              requests that are tried again, the preparation of volumes and routes,
--              _handle_reboot with _handle_rebooted_run as the steps of a host,
--              cmd_gcvols, and the registration and the properties of a host (HostProps).
--   Runner     runner/jobserv_runner/: SimpleHandler of handlers/simple.py with the order of its
--              steps, its junit results and its container's arguments, GitPoller of
--              handlers/git_poller.py with its .gitconfig and its commands, stream_cmd of cmd.py,
--              and the uploads of jobserv.py.
--   Permissions jobserv/permissions.py: _sign and _assert_internal_user.
--   Poller     jobserv/git_poller.py: the table of _poll, _poll_project, _get_repo_changes with what
--              a repository lists as an argument, _is_skipped, and the loops of _github_log,
--              _gitlab_log and _cgit_log.
--   Hooks      jobserv/api/github.py: on_webhook up to the pull request that it builds, with the
--              functions that it calls, the choice of a trigger, and threaded_commit;
--              jobserv/api/gitlab.py: on_webhook up to the merge request that it builds.
--   Storage    jobserv/storage/base.py: _get_run_path, set_run_definition, get_run_definition, what is
--              kept of a build and of the poller over an interface of files, which
--              jobserv/storage/local_storage.py fills, with its listing and its signed uploads.
--   Jsend      jobserv/jsend.py: _status_str and paginate_custom.
--   Prelude    the lemmas on lists, texts and keys that the parts share, with the methods of Python's
--              texts that the program uses. Fixtures has the rows that the tests use.
--
-- Queue reads the tables of Models and the tags of Workers; Surge shares the tags; Triggers builds on
-- the definitions of Project and adds runs to the builds of Models; RunApi sets their states
-- through Models and starts Triggers; Monitor puts runs back into the queue. WorkerApi.Polling hands
-- out the run that Queue chose; BuildApi makes the builds that Triggers fills; TestApi ends runs as
-- RunApi does; WorkerScript asks it for runs and gives them to Runner.
--
-- The conventions: an operation takes the state before it and returns the state after it, the clock
-- is an argument, and an exception is a constructor of the result which holds what was committed.
-- Keys, priorities, limits and pages are natural numbers. Texts are lists of code points; lower case
-- is that of ASCII. Regular expressions, the libraries for tokens, passwords and keyed hashes, the
-- stored definitions, random keys and the console log's lines are arguments.
--
-- Loops recurse on their lists, but for a few. The rounds of claims in _check_queue recurse on the
-- number of all slots and one more, which is enough, since each round but the last uses a slot. The
-- test of recursive triggers recurses on the depth that the source gives it, 2. A pattern of
-- fnmatch is matched with its length as fuel, since each step uses up a character of it. The
-- groups of an upload recurse on the number of items, since each group holds one at least, and
-- the requests that are tried again on the number of tries that the source gives. The expansion of
-- loops, which changes the list that it walks, has a fuel of one step for each copy and one for each
-- run: every step passes one of them.
--
-- Not modelled: the requests of the poller and of the hooks, the clouds of the storage, the update
-- of a worker's script, and the processes that a runner starts, which are mostly calls of other
-- services; the schema's validation, and format conversions in the names of runs. Settings of a
-- definition that are only passed through are left out of its record. What the operating system makes
-- of paths with parts like .. is not modelled, and the status of a build is computed from all its
-- runs, but for the end of a build, where the session still holds the runs as they were.
pub mod Prelude
pub mod Status
pub mod Jsend
pub mod Models
pub mod Workers
pub mod WorkerApi
pub mod Permissions
pub mod Queue
pub mod Surge
pub mod Project
pub mod Triggers
pub mod RunApi
pub mod Monitor
pub mod Poller
pub mod Runner
pub mod WorkerScript
pub mod Fixtures
pub mod BuildApi
pub mod TestApi
pub mod Hooks
pub mod Storage
pub mod ProjectApi
pub mod Lifecycle
pub mod Notify
