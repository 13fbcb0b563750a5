-- ===== src/Cli.antt =====
-- src/bin/cli: the command line client.
pub mod Text
pub mod State
pub mod History
pub mod Summary
pub mod Commands
pub mod Keys
pub mod Tasks
pub mod Plain
pub mod Startup
pub mod Panes
pub mod Bars
