-- ===== src/Tests.antt =====
-- Runs of the model on concrete inputs, and the theorems at inputs that meet their hypotheses.
mod Sdp
mod Sessions
mod Media
mod Gateway
mod Probing
mod Processes
mod Settings
