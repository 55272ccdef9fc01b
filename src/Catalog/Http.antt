-- ===== src/Catalog/Http.antt =====
-- The package catalog/http.
pub mod Responses
pub mod Parse
pub mod Handlers
pub mod Routes
