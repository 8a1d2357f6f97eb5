-- ===== src/Tests.antt =====
-- Runs at concrete inputs: a scripted manager, a configuration, and a machine.
mod Attempts
mod Manager
mod Settings
mod Examples
mod Commands
mod Machines
mod Restores
mod Clusters
mod Updates
mod Schemas
mod Responses
mod Upgrades
mod Teardowns
