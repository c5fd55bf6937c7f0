-- ===== src/Calculator.antt =====
-- cw10: a server that sends operations to its clients, and the clients that compute them.
pub mod Message
pub mod Descriptors
pub mod Server
pub mod Registry
