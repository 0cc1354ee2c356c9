-- ===== src/Cli.antt =====
-- apps/cli/main.cpp: the command-line client.
pub mod Parse
pub mod Submit
pub mod Commands
pub mod Bounds
pub mod Read
pub mod Requests
