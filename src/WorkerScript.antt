-- ===== src/WorkerScript.antt =====
-- jobserv_worker.py: the script on a worker that asks the server for runs and carries them out. What
-- the server, the file system and the clock answer are arguments.
pub mod Retries
pub mod Locks
pub mod Setup
pub mod Check
pub mod CheckIn
pub mod Loop
pub mod Reboot
pub mod Volumes
pub mod Properties
mod Samples
