-- ===== src/Tests.antt =====
-- Runs of the models and of the theorems on concrete inputs.
mod Cash
mod Listing
mod Auth
mod Send
mod Signer
mod Money
mod Chain
mod Evm
mod Jobs
mod Limits
mod Schedule
mod Scheduler
mod Machines
