-- ===== src/Pancy.antt =====
-- The Pancy key-value service: its messages and its database.
pub mod Msgs
pub mod Print
pub mod Db
pub mod Tests
