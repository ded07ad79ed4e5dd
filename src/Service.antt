-- ===== src/Service.antt =====
-- internal/controller/opsgenieservice_controller.go: the comparison of a service with Opsgenie's,
-- and the reconciler.
pub mod Tags
pub mod Comparison
pub mod Reconcile
pub mod Trace
pub mod Lawful
pub mod Settled
pub mod Convergence
pub mod Memory
pub mod Keeps
mod Tests
