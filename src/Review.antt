-- ===== src/Review.antt =====
-- app/review: what a review is made of and how its parts are computed.
pub mod Schema
pub mod Header
pub mod Filter
pub mod Chunks
pub mod Lines
pub mod Hunk
pub mod Diff
pub mod Budget
pub mod Context
pub mod Risk
pub mod Model
pub mod Verify
pub mod Summary
pub mod Render
pub mod Batches
pub mod Notes
pub mod Track
pub mod Prompt
pub mod Assemble
pub mod Generate
pub mod Progress
pub mod Told
pub mod Run
