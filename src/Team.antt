-- ===== src/Team.antt =====
-- internal/controller/opsgenieteam_controller.go: when a team's members or metadata differ from
-- Opsgenie's, and the reconciler.
pub mod Members
pub mod Comparison
pub mod Reconcile
pub mod Lawful
pub mod Steps
pub mod Updates
pub mod Convergence
pub mod Trace
pub mod Memory
pub mod Keeps
pub mod View
pub mod Refinement
mod Tests
