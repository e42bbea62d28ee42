-- ===== src/Rpc/Examples.antt =====
-- The theorems of the RPC layer at concrete inputs.
mod Dispatch
mod Sockets
mod Clients
mod Blocking
pub mod Traces
