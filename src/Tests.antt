-- ===== src/Tests.antt =====
-- The theorems at concrete plans, requests and tables.
mod Agent
mod Analyzer
mod Executor
mod Gate
mod Catalog
mod Layers
mod Guard
