-- ===== src/Helpers.antt =====
-- src/helpers.hpp, one module for each family of helpers, and the std::string operations they call.
pub mod Search
pub mod Cookie
pub mod Trim
pub mod Number
pub mod Password
pub mod Json
pub mod Html
pub mod Placeholder
