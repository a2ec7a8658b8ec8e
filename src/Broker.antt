-- ===== src/Broker.antt =====
-- rifts-broker/src/broker: subscriptions and their delivery, and the broker that joins topics, stores and subscriptions.
pub mod Fanout
pub mod Memory
