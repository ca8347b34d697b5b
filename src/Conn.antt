-- ===== src/Conn.antt =====
-- server/server.go: what a connection keeps and how it answers the requests that set up a session and its trees.
pub mod Trees
pub mod Negotiate
pub mod Setup
pub mod States
pub mod Packets
