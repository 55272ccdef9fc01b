-- ===== src/Tests.antt =====
-- Runs of the model at concrete inputs.
mod Seal
mod Redis
mod World
mod Sessions
mod Accounts
mod Codes
mod Requests
mod Shop
mod Stores
mod Catalogue
mod Database
mod Dao
mod Users
mod Http
mod Startup
