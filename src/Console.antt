-- ===== src/Console.antt =====
-- ssh/console.go: the terminal of a session.
pub mod Completion
pub mod Channel
pub mod Loop
