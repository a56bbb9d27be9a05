-- ===== src/Examples.antt =====
-- Concrete maps, journals, jobs, passes and stores, to which the theorems are applied.
mod Maps
mod Journals
mod Jobs
mod Sessions
mod Headers
mod Stores
mod Scrapes
mod Images
mod FastReads
