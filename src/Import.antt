-- ===== src/Import.antt =====
-- lib/import: the values that the importers read.
pub mod Amounts
