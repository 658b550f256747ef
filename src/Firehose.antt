-- ===== src/Firehose.antt =====
-- The firehose side (relay/internal/firehose/server.go).
pub mod Message
pub mod Server
pub mod Invariant
pub mod Channels
pub mod Steps
pub mod Safety
pub mod Runs
pub mod Delivery
pub mod Stream
pub mod Writing
pub mod Order
pub mod History
pub mod Bounds
pub mod Leaving
pub mod Waiting
pub mod OneClient
mod Examples
pub mod Replay
pub mod Handler
