-- ===== src/Opsgenie.antt =====
-- The requests and answers of opsgenie-go-sdk-v2 as records, with the fields that the controllers
-- fill or read, one child module for each API. The clients themselves are parameters.
pub mod Og
pub mod Team
pub mod Service
pub mod Schedule
pub mod Escalation
