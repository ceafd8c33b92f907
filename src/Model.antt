-- ===== src/Model.antt =====
-- The data model: app/models (the tables' rows), app/core/config.py, and JSON values.
pub mod Json
pub mod Settings
pub mod Rows
pub mod Db
