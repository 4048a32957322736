-- ===== src/Nats/Delivery.antt =====
-- Messages over NATS from end to end: sendEnvelope, the pump, the dispatcher's queue and the handler.
pub mod Exchange
pub mod ToService
pub mod ToGateway
pub mod Conversation
mod Tests
