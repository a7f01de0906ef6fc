-- ===== src/Llm.antt =====
-- app/llm: reading what a model answers.
pub mod Partial
