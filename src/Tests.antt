-- ===== src/Tests.antt =====
-- Concrete runs: packets of one stream, and the theorems at them.
mod Packets
mod Decoding
mod Interpreting
mod Buffering
mod Sessions
mod Threads
mod Failing
mod Replays
mod Listens
mod Metering
mod Commands
