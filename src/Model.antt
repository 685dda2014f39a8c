-- ===== src/Model.antt =====
-- The data model: backend/app/models/*.py, and the database as a record of tables.
pub mod Status
pub mod Market
pub mod Orders
pub mod Money
pub mod Support
pub mod Db
pub mod Keys
