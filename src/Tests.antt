-- ===== src/Tests.antt =====
-- Runs of the modelled code on concrete inputs, on which the theorems are applied.
mod Data
mod Integrity
mod Collector
mod Jobs
mod Memory
mod Health
mod Remote
mod Server
