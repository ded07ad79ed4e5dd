-- ===== src/Escalation.antt =====
-- internal/controller/opsgenieescalation_controller.go: the comparison of escalation rules, their
-- conversion, which resolves references to other resources, and the reconciler.
pub mod Compare
pub mod Reconciler
pub mod Rules
pub mod RulesLaws
pub mod CompareLaws
pub mod Reconcile
pub mod Trace
pub mod Lawful
pub mod Settled
pub mod Steps
pub mod Convergence
pub mod Memory
pub mod Keeps
pub mod Fixture
mod Tests
