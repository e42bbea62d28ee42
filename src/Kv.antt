-- ===== src/Kv.antt =====
-- The key-value programs of xdrdemo: the protocol of kvprot.x, its servers and its clients.
pub mod Protocol
pub mod Server
pub mod AsyncServer
pub mod TieringServer
pub mod AsyncClient
pub mod SyncClient
mod Examples
