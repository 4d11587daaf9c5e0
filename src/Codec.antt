-- ===== src/Codec.antt =====
-- model/json/: the model's objects as JSON values, and back.
pub mod Json
pub mod Converter
pub mod Values
pub mod Places
pub mod Incidents
pub mod Rangers
