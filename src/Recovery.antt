-- ===== src/Recovery.antt =====
-- internal/recovery: the passes that decide what to read next, and the lifecycle of a session.
pub mod Request
pub mod Trim
pub mod Lifecycle
pub mod Fast
pub mod Scrape
pub mod Outcome
