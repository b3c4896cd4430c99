-- ===== src/Tests.antt =====
-- Runs on concrete inputs, and each theorem with conditions at an input that meets them.
mod Auction
mod Delivered
mod Registry
mod Beacon
mod Api
mod BlockSim
mod Floor
mod Payloads
mod Submit
mod GetPayload
mod GetHeader
mod Head
mod Registrations
