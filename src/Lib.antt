-- ===== src/Lib.antt =====
-- Verification of go-smb2, an SMB2/3 file server. Paths are from the repository's root.
--
-- The program: a connection (server/conn.go) reads frames from its transport, decrypts, verifies and
-- splits them, and queues requests; handlers (server/server.go, server/file_tree.go) serve them
-- against a virtual file system; credits (server/credit.go) bound what a client may have outstanding;
-- internal/smb2 encodes and decodes the messages; bulk/ is a journal of batched operations.
--
-- Bytes: Go slices with their capacity; writing into them (`copy`, `Put`) as lists of writes.
-- Packet: internal/smb2/packet.go, `PacketCodec`, `encodeHeader`, `TransformCodec`.
-- Dtyp: internal/smb2/dtyp.go, FILETIME and SID. Oplock: internal/smb2/oplock.go, break messages.
-- Session: server/session.go, `sign`, `verify`, `encrypt`, `decrypt`.
-- Transport: server/transport.go, the framing of `directTCP`.
-- Receive: server/conn.go, `tryDecrypt`, `tryVerify`, `tryHandle`, the loop of `runReciever`.
-- Opens: server/server.go and server/file_tree.go. Opens.Table is the table of opens with the
-- delete-pending marks (`addOpen`, `closeOpen`, ...), Opens.Break the oplock and lease breaks
-- (`BreakNode`, `oplockBreak`), Opens.Close deletion (`applyDeleteDisposition`, `close`).
-- Credit: server/credit.go. Path: server/path.go. Xattr: internal/xattrstore/xattrstore.go.
-- Conn: server/server.go. Conn.Negotiate is `ServerNegotiator.negotiate` with the decoders of its
-- request, Conn.Setup the session setup request and the key derivation (server/kdf.go), Conn.States
-- the connection's state under `Run`, `sessionSetup` and `logoff`, Conn.Trees the trees of
-- `treeConnect` and `treeDisconnect` (server/tree.go) as addresses that two maps share.
-- Bulk: bulk/protocol.go. Bulk.WriteRun and Bulk.Apply: bulk/backend.go, `applyWriteRun`, and
-- `validateBatch`, `readApplyProgress` and `apply`, over a file system with errors; Bulk.Commit is
-- `CommitReady`, which runs them on a package that was uploaded.
-- Queue: server/conn.go, `outstandingRequests`, with the turns of the receiver and the server.
-- Send: server/compound.go, `compoundContext`, and what `sendPacket` (server/conn.go) does with it.
-- Send.Encode: server/conn.go, `encodePacket`.
-- Vfs: vfs/, the attributes of a file and the interface of a file system; Vfs.Convert is what the
-- wire says of them (internal/smb2/util.go). Acl: server/acl.go. Info: server/info_fs.go, the entries
-- of a directory listing.
-- Files: server/file_tree.go, the requests on files, as handlers that call the file system, change the
-- tables of Opens.Table and answer: Files.Create is `create`, Files.Create.Fields
-- what it reads of its request and Files.Create.Contexts its contexts,
-- Files.Directory `queryDirectory`, Files.Io `read`, `write`, `flush` and `lock`, Files.SetInfo
-- `setInfo`, Files.Security `queryInfoSec` and `setSecInfo`. Files.Calm and Files.Still are the rules
-- for what a handler leaves alone.
-- Common holds shared helpers, Fixtures concrete data, Runs examples.
--
-- Conventions. A run-time panic is `none`. Numbers are natural numbers; a fixed width is written out
-- as a remainder. Byte strings are lists of numbers. A pointer is the key of its object in a store.
-- Bounds and fuel: `handle_parts` and `apply` run on fuel. `receive_frame` gives the first the
-- frame's length and one, which suffices since each part is shorter than what it was cut from; one
-- more than the operations left suffices for the second, since each turn takes at least one.
-- `query_wildcard` needs more fuel than there are entries to come, since each turn but the last reads
-- one; the loops over create contexts are given the bytes of the contexts and one.
--
-- Not modelled: hashes, ciphers and JSON are parameters, and so are the host's file system, UTF-16,
-- regular expressions and the flags of `os.OpenFile`; sockets, channels' blocking but for the queue,
-- logging, NTLM and SPNEGO, queries of information but for the security descriptor, control codes and
-- change notifications, the POSIX class of listings and the resource fork in Apple's, and the
-- encodings of most responses. The two halves of a read or write that is answered later are modelled
-- in the order of one request.
pub mod Acl
pub mod Bulk
pub mod Bytes
pub mod Common
pub mod Conn
pub mod Credit
pub mod Dtyp
pub mod Files
pub mod Fixtures
pub mod Info
pub mod Opens
pub mod Oplock
pub mod Packet
pub mod Path
pub mod Queue
pub mod Receive
pub mod Send
pub mod Session
pub mod Transport
pub mod Vfs
pub mod Xattr
