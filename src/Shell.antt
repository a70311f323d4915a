-- ===== src/Shell.antt =====
-- ssh/defaultcmd.go and ssh/command: the commands of a console. What cobra decides about the arguments of
-- a line, and the values of its flags, are parameters.
pub mod Tree
pub mod Reset
pub mod Texts
pub mod Run
pub mod Calls
pub mod Callers
pub mod Owned
pub mod Safe
pub mod Typed
