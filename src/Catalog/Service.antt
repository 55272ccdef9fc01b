-- ===== src/Catalog/Service.antt =====
-- catalog/service/service.go.
pub mod Base
pub mod Skus
pub mod Category
pub mod Product
pub mod History
