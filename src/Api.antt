-- ===== src/Api.antt =====
-- application/_api.py: the handlers that write. What a handler reads of the request's body has been
-- parsed: a value that is there has the type that the handler's code expects. The bodies of new incidents
-- and new reports are JSON values.
pub mod Server
pub mod Incidents
pub mod Admin
pub mod New
pub mod Authorized
pub mod Ignored
pub mod Reading
pub mod Confidential
pub mod Login
pub mod Router
pub mod Listing
