-- ===== src/Model.antt =====
-- adapter/model: building a model from the syntax, and the writes.
pub mod Outcome
pub mod Nodes
pub mod Declare
pub mod Parts
pub mod Resolve
pub mod Eval
pub mod Constraint
pub mod Link
pub mod Build
pub mod Patch
pub mod Examples
