-- ===== src/Tests.antt =====
-- Runs of the modelled code at concrete inputs, and each result at an input that meets its
-- hypotheses.
mod Control
mod Gateway
mod Update
mod Credential
mod Relay
mod SignIn
mod Broker
mod Backup
mod Desktop
