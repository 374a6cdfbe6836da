-- ===== src/Tests.antt =====
-- The theorems applied at concrete inputs, and runs of the definitions.
mod Rating
mod Cbc
mod Wire
mod Net
mod Robot
mod Oracle
mod Parse
mod Scan
mod Renegotiation
mod Heartbleed
mod Session
mod Server
mod Padding
mod Service
mod Oracles
mod Reported
mod Wired
