-- ===== src/Tests.antt =====
-- Runs at concrete inputs, and the theorems at inputs that meet their hypotheses.
mod Locks
mod Filters
mod Snapshots
mod Servers
mod Objects
mod Plans
mod Admissions
mod Cleanups
mod Scans
mod Configs
mod Proxies
mod Journeys
mod Downloads
mod Locals
mod Promotions
mod Runs
mod Audits
