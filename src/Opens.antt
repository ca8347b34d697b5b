-- ===== src/Opens.antt =====
-- server/server.go: the server's open files, the delete-pending nodes, and the oplock and lease
-- breaks that it sends; server/file_tree.go: the acknowledgments of those breaks.
pub mod Table
pub mod Break
pub mod Close
