-- ===== src/Tests.antt =====
-- The listed theorems at a small log and its channels.
pub mod Data
pub mod Log
pub mod Search
pub mod Durability
pub mod Channels
pub mod Queues
pub mod Parts
pub mod Protocol
pub mod Server
pub mod System
