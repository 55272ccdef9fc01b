-- ===== src/Auth/Dao.antt =====
-- dbase/userdao/postgres.go: accounts in the database.
pub mod Rows
pub mod Users
pub mod Sso
pub mod Repository
