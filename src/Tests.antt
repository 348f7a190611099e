-- ===== src/Tests.antt =====
-- Concrete parameters, and each theorem at an input that meets its hypotheses.
mod Codec
mod Parameters
mod Planner
mod Formats
mod Files
mod Options
mod Load
mod Layout
mod Commit
mod Selection
mod Scan
mod Executor
mod Truncate
mod Utility
mod Directories
mod Trigger
