-- ===== src/Tests.antt =====
-- The theorems applied to concrete data.
mod Findings
mod Hunks
mod Prompts
mod Runs
mod Comments
mod Env
mod Evaluations
mod Jobs
