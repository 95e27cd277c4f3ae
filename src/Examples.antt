-- ===== src/Examples.antt =====
-- Concrete runs, deliveries, actions and decisions (src/ueaf), at which the theorems are applied.
mod Data
mod Runs
mod Leases
mod Delivery
mod Actions
mod Decisions
mod Recoveries
mod Budgets
mod Evolutions
mod Admissions
mod Releases
mod Reviews
mod Memories
mod Turns
