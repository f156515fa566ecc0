-- ===== src/Web.antt =====
-- src/main.cpp, src/middleware.hpp and src/controllers/: the HTTP side of the application.
pub mod Http
pub mod Services
pub mod Middleware
pub mod AuthController
pub mod BoardController
pub mod Routes
pub mod Rights
pub mod Login
pub mod Access
pub mod Granted
pub mod Pages
pub mod Conservation
pub mod Backend
pub mod Errors
pub mod Collector
pub mod History
pub mod Server
