-- ===== src/Rpc.antt =====
-- The RPC layer: messages, replies, dispatch and the sockets that carry them.
pub mod Types
pub mod Codec
pub mod Replies
pub mod Status
pub mod Dispatch
pub mod MsgSock
pub mod MsgIn
pub mod Sock
pub mod Client
pub mod Tracing
pub mod Reply
pub mod Tier
pub mod Srpc
pub mod Examples
