-- ===== src/Tests.antt =====
-- Runs of the model at concrete inputs.
mod Cluster
mod Claims
mod Grants
mod Login
mod Services
mod Servers
mod Options
mod Tasks
mod Managers
mod Lines
mod Commands
mod Steady
mod Copies
