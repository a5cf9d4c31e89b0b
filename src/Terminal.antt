-- ===== src/Terminal.antt =====
-- src/kernel/terminal.cpp: what the terminal runs programs with.
pub mod Args
pub mod Pipe
