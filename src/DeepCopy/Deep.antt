-- ===== src/DeepCopy/Deep.antt =====
-- The methods of api/v1beta1/zz_generated.deepcopy.go make deep copies.
pub mod Resource
pub mod Escalation
pub mod IncidentRule
pub mod Schedule
pub mod Service
pub mod Team
pub mod Runtime
