-- ===== src/Workflow.antt =====
-- The durable workflow service of internal/workflow.
pub mod Model
pub mod Definition
pub mod Graph
pub mod Writes
pub mod Sources
pub mod Compile
pub mod Registry
pub mod Script
pub mod Journal
pub mod Advance
pub mod Service
pub mod Activities
pub mod Resolve
pub mod Claim
pub mod Reconcile
pub mod Extends
pub mod Stored
pub mod Ensures
pub mod Yields
pub mod Rules
pub mod Calls
mod Scene
mod Tests
