-- ===== src/Tests.antt =====
-- The theorems at concrete inputs, and runs of the definitions.
mod Offloading
mod Policies
mod Simulator
mod Metrics
mod Transfers
mod Drivers
mod LockFile
mod Online
mod Answers
