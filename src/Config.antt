-- ===== src/Config.antt =====
-- The config subcommand: the patcher of containerd's configuration (pkg/containerd/config), in
-- Tree.antt, Snippet.antt and Patcher.antt, the wait for the daemon in Wait.antt, the restart of containerd in Restart.antt, and the command
-- (cmd/daemon/config.go) in Command.antt.
pub mod Tree
pub mod Snippet
pub mod Patcher
pub mod Flags
pub mod Wait
pub mod Restart
pub mod Command
