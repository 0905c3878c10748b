-- ===== src/Document.antt =====
-- examples/pipeline/document
pub mod Decimal
pub mod Forest
pub mod Tree
pub mod Service
pub mod Examples
