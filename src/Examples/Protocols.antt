-- ===== src/Examples/Protocols.antt =====
-- Inputs for rifts-core/src/protocol and the error codes of rifts-broker/src/connection/control.rs.
