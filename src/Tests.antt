-- ===== src/Tests.antt =====
-- Runs of the modelled code at concrete inputs.
pub mod Samples
mod Routing
mod Handling
mod Engines
mod Tables
mod Resuming
mod Relations
pub mod Selecting
pub mod Agreement
mod Sharing
pub mod Generating
pub mod Phases
mod Sampled
mod Gating
