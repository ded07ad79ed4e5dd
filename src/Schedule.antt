-- ===== src/Schedule.antt =====
-- internal/controller/opsgenieschedule_controller.go: the conversion of rotations, the comparison
-- with Opsgenie's, and the reconciler.
pub mod Days
pub mod DayLaws
pub mod Participants
pub mod ParticipantLaws
pub mod Rotations
pub mod RotationLaws
pub mod Bounds
pub mod Compare
pub mod CompareLaws
pub mod Reconcile
pub mod Trace
pub mod Panics
pub mod Lawful
pub mod Settled
pub mod Steps
pub mod Convergence
pub mod Memory
pub mod Fixture
pub mod Keeps
mod Tests
