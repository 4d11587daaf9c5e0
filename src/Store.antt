-- ===== src/Store.antt =====
-- store/: the data store, over the SQLite implementation of its database.
pub mod Values
pub mod Tables
pub mod Statements
pub mod Transactions
pub mod Keeps
pub mod Access
pub mod Entries
pub mod Incidents
pub mod Reports
pub mod Fetch
pub mod Calls
pub mod Audit
pub mod Numbers
pub mod Rollback
pub mod Schema
pub mod Links
pub mod Abstract
