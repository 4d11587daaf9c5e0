-- ===== src/Store/Statements.antt =====
-- store/sqlite/_queries.py: each statement with the constraints that the schema puts on it.
pub mod Access
pub mod Incidents
pub mod Entries
pub mod Reports
