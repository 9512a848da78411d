-- ===== src/Backup.antt =====
-- internal/controller/backup_controller.go: the backup controller. The rendering of its resources
-- (internal/resources/backup.go) is left out, and the name of a restore Job is a parameter.
pub mod Jobs
pub mod Reconcile
pub mod Restores
pub mod Once
pub mod Latest
pub mod Restless
