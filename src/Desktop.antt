-- ===== src/Desktop.antt =====
-- internal/desktop and internal/controller/personaldesktop_controller.go: Personal Desktops.
pub mod Spec
pub mod Objects
pub mod Reconcile
pub mod Disks
pub mod Keeping
pub mod Cleanup
pub mod Coverage
