-- ===== src/Nats.antt =====
-- transport/natstransport: the parts that decide something by themselves. NATS and msgpack are other
-- packages, whose answers are arguments.
pub mod Dispatch
pub mod Slices
pub mod Chunks
pub mod Heartbeats
pub mod Subjects
pub mod Subscriptions
pub mod Codec
pub mod Envelopes
pub mod ServiceMessages
pub mod GatewayMessages
pub mod Delivery
pub mod Transfer
pub mod Serving
pub mod Broadcasts
mod Tests
