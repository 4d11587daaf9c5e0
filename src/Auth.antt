-- ===== src/Auth.antt =====
-- auth/_provider.py: who a request comes from, and what that user may do.
pub mod Authorization
pub mod Claims
pub mod Acl
pub mod Provider
