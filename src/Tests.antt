-- ===== src/Tests.antt =====
-- Concrete runs of the executor, its hooks and its health checker.
mod World
mod Killing
mod Launching
mod Hooks
mod Rules
mod Checking
mod Network
mod Docker
mod Ledgers
mod Together
mod Programs
mod Restoring
mod Deploying
