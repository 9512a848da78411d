-- ===== src/Control.antt =====
-- internal/desktopgateway/control.go: the registry that arbitrates the input lease and the power
-- quarantine of each desktop. A region that holds the mutex is one function from the registry to
-- the registry; a method that drops the lock and takes it again is two. Objects that the source
-- compares by pointer carry the number that allocation gave them.
pub mod Defs
pub mod Actions
pub mod Power
pub mod Steps
pub mod Invariant
pub mod Quarantine
pub mod Leases
pub mod Generations
pub mod Takeover
pub mod Drain
pub mod Expiry
