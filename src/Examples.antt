-- ===== src/Examples.antt =====
-- Concrete runs of the models, on small trees, limits, journals and calls.
pub mod Nodes
pub mod Limits
pub mod Scheduling
pub mod Commands
pub mod Security
pub mod Attributes
pub mod Servers
pub mod Flows
pub mod Variables
pub mod Checkpoints
pub mod Controls
pub mod Boundaries
pub mod Artifacts
