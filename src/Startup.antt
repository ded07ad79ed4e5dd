-- ===== src/Startup.antt =====
-- cmd/main.go and the `SetupWithManager` functions of internal/controller: the TLS options of the
-- two servers, the registration of the controllers, and the order of the steps of `main`.
pub mod Slices
pub mod Tls
pub mod TlsLaws
pub mod Program
pub mod Manager
pub mod Setup
pub mod Main
pub mod Follows
pub mod Recorded
pub mod Order
mod Tests
