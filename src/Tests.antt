-- ===== src/Tests.antt =====
-- Runs of the modelled code on concrete inputs.
mod Addresses
mod Buffers
mod Connections
mod Pollers
mod Loops
mod Timing
mod Servers
mod Lifetimes
mod Ends
