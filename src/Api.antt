-- ===== src/Api.antt =====
-- The custom resources of api/v1beta1, one child module for each. Of the Kubernetes metadata a
-- resource keeps its name and namespace, which is all that the controllers read.
pub mod Team
pub mod Service
pub mod Schedule
pub mod Escalation
pub mod IncidentRule
