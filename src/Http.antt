-- ===== src/Http.antt =====
-- The HTTP interface: src/error.rs, src/http/mod.rs and src/http/handlers.rs.
pub mod Responses
pub mod ApiErrors
pub mod Multipart
pub mod Server
pub mod Handlers
pub mod Serve
