-- ===== src/DeepCopy/Methods.antt =====
-- api/v1beta1/zz_generated.deepcopy.go: DeepCopyInto, DeepCopy and DeepCopyObject
pub mod Resource
pub mod Escalation
pub mod IncidentRule
pub mod Schedule
pub mod Service
pub mod Team
pub mod Runtime
