-- ===== src/Delivery.antt =====
-- The ways of a fault to a node: from the client (client/src/client.c) through the fifo to its backend
-- (client/src/backend.c), and from the server's MQTT plugin to the client.
pub mod Fifo
pub mod Topic
pub mod Nodes
pub mod Handshake
