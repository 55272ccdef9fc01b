-- ===== src/Catalog.antt =====
-- The catalogue: its data, its repository interface, its service and the pure parts of its DAO.
pub mod Errors
pub mod Models
pub mod Requests
pub mod Ports
pub mod Service
pub mod Dao
pub mod Http
