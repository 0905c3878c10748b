-- ===== src/Projection.antt =====
-- adapter/projection: the store behind the adapter's subgraph.
pub mod Store
pub mod Examples
