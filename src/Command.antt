-- ===== src/Command.antt =====
-- cmd/webhook/main.go: the command, from its arguments to its exit.
pub mod Run
pub mod Ending
pub mod Answering
