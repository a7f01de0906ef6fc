-- ===== src/Evaluation.antt =====
-- app/evaluation: the metrics of an evaluation of the review under three conditions
-- (context_effect), and the tables in which the results of reviews are kept.
pub mod Labels
pub mod Tally
pub mod Metrics
pub mod Counts
pub mod Recall
pub mod Shorter
pub mod Rates
pub mod Pending
pub mod Tables
pub mod Repository
