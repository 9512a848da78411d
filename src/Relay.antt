-- ===== src/Relay.antt =====
-- internal/relay/watch.go: restart requests that the runtime drops into a directory.
pub mod Watch
pub mod Markers
pub mod Delivery
pub mod Config
pub mod Changes
pub mod Status
