-- ===== src/Command.antt =====
-- src/command.c: the tokenizer, the handlers, the table of commands, and `command_execute`.
pub mod Keeps
pub mod Tokens
pub mod Reply
pub mod Handlers
pub mod Execute
pub mod Logged
pub mod Bounds
