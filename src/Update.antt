-- ===== src/Update.antt =====
-- The managed runtime's rollouts: internal/update and the auto-update controller.
pub mod Versions
pub mod Order
pub mod Rollout
pub mod Advance
pub mod Reconcile
pub mod Courses
pub mod Safety
pub mod Confirmation
pub mod Current
pub mod Rounds
