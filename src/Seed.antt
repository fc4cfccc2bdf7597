-- ===== src/Seed.antt =====
-- internal/seed: the canonical dataset stream and the sinks that it feeds.
pub mod Types
pub mod Program
pub mod Generator
pub mod Sampler
pub mod Rows
pub mod PostgresWriter
pub mod Relationships
pub mod SpicedbWriter
pub mod Checkpoints
