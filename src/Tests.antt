-- ===== src/Tests.antt =====
-- Runs at concrete inputs.
mod Topics
mod Packets
mod Ids
mod Acls
mod Subscribers
mod Buffers
mod Frames
mod Queues
