-- ===== src/FooterFile.antt =====
-- The footer file of a table: how it is written, how it is read, and that one undoes the other.
pub mod Write
pub mod Read
pub mod RoundTrip
