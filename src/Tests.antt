-- ===== src/Tests.antt =====
-- The theorems at concrete inputs.
mod Data
mod Routes
mod Removals
mod Addresses
mod Files
mod Sessions
mod Restarts
mod Locks
mod Commands
mod Consoles
mod Lives
mod Accesses
mod Startups
mod Shells
mod Registries
mod Logins
mod Reopened
mod Servers
mod Systems
