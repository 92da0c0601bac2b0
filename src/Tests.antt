-- ===== src/Tests.antt =====
-- Runs of the definitions and instances of the theorems at concrete inputs.
mod Llm
mod Worker
mod History
mod Sessions
mod Qa
mod Embedding
mod Time
mod Tone
mod Aggregate
mod Plan
mod Hybrid
mod Posts
mod QaV2
mod Ask
mod System
