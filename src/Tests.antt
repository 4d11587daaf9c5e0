-- ===== src/Tests.antt =====
-- Concrete users, tokens and databases, and the theorems at them.
pub mod Auth
pub mod Model
pub mod Store
pub mod Clock
pub mod Converter
pub mod Codec
pub mod Data
pub mod Incidents
pub mod Created
pub mod EventSource
pub mod Schema
pub mod Api
pub mod Reading
pub mod New
pub mod Directory
pub mod Web
