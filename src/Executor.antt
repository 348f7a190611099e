-- ===== src/Executor.antt =====
-- What the callbacks of cstore_fdw.c do around a scan: the columns that a query needs, and the rows
-- that ANALYZE samples.
pub mod Columns
pub mod Sample
