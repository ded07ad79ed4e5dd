-- ===== src/System.antt =====
-- The five controllers together, as cmd/main.go puts them together: what the cluster and Opsgenie
-- go through while the controllers, and others, change them in any order.
pub mod Steps
pub mod Identified
pub mod Chain
pub mod Progress
pub mod Requeued
pub mod Cluster
pub mod Refusing
pub mod Pair
pub mod ServicePair
mod Tests
mod ChainTests
