-- ===== src/Web.antt =====
-- internal/server: the web server's own logic.
pub mod RateLimit
pub mod ClientIp
mod Examples
