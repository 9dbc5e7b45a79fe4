-- ===== src/Web.antt =====
-- src/workserver/webserver.hpp: what the web server makes of a request's target.
pub mod Url
pub mod Mime
pub mod Endpoints
pub mod Pages
pub mod Served
pub mod Handled
pub mod Pipeline
pub mod Session
pub mod Socket
pub mod Server
pub mod Listener
pub mod Reference
mod Tests
