-- ===== src/Credential.antt =====
-- Credential execution: internal/credential/operation.go and the credential controller.
pub mod Policy
pub mod FailClosed
pub mod Requests
pub mod Reconcile
pub mod Execute
pub mod Stages
pub mod Quiet
pub mod Fits
pub mod Scripts
pub mod OneRunner
pub mod Justified
pub mod Permits
pub mod Creation
pub mod Settled
pub mod Identity
pub mod Broker
pub mod Paths
pub mod Asked
pub mod Served
pub mod Retries
pub mod Handover
