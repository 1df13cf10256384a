-- ===== src/Runner.antt =====
-- The runner (runner/jobserv_runner/): how a worker carries out a run. What the server, docker and git
-- answer are arguments.
pub mod Stream
pub mod Upload
pub mod Junit
pub mod Execute
pub mod Docker
pub mod Netrc
pub mod Gitconfig
mod Samples
