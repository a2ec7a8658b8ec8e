-- ===== src/Examples.antt =====
-- The theorems applied to concrete inputs, and runs of the definitions on them.
mod Frames
mod Protocols
mod Flows
mod Topics
mod Acks
mod Sessions
mod Storages
mod Brokers
mod Trees
mod Connections
mod Clients
mod Auths
mod Reconnects
mod Sleds
mod Servers
mod Scans
