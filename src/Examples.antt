-- ===== src/Examples.antt =====
-- Small data, and the theorems applied to it.
mod Data
mod Queue
mod Reports
mod Rest
mod Accounts
mod Worker
mod Pages
