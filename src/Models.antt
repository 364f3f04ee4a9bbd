-- ===== src/Models.antt =====
-- agent/core/models.py: the durable data model, one child for each part of it.
pub mod Json
pub mod Content
pub mod Tools
pub mod Entries
pub mod Path
pub mod Session
pub mod Status
pub mod Storage
