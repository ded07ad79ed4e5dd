-- ===== src/IncidentRule.antt =====
-- internal/controller/opsgenieincidentrule_controller.go: the requests for an incident rule, and
-- the reconciler.
pub mod Requests
pub mod RoundTrip
pub mod Reconcile
pub mod Trace
pub mod Lawful
pub mod Once
pub mod Memory
pub mod Keeps
mod Tests
