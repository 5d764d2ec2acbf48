-- ===== src/Examples.antt =====
-- The theorems at concrete input, and tests of the definitions.
mod Statements
mod Controls
mod Months
mod ListClient
mod Closes
mod Reports
mod Decisions
mod Sources
mod Histories
mod Bookings
