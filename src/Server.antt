-- ===== src/Server.antt =====
-- internal/server/middleware.go, and the chain of middlewares that internal/server/server.go puts
-- around the routes.
pub mod Routes
pub mod Middleware
pub mod Writer
pub mod Serve
pub mod Lockout
pub mod Run
pub mod Examples
