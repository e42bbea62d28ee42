-- ===== src/Lib.antt =====
-- A verification of xdrdemo, a key-value store over Sun RPC with call tracing, and of the copy of the
-- xdrpp library under xdrdemo/cxx/xdrpp that it changes and is built on.
--
-- A client marshals a call's header and arguments to a message, and a socket sends the message behind
-- its record mark. The server's socket finds the messages in the stream, `rpc_server_base::dispatch`
-- finds the service and the procedure, the procedure decodes the arguments and runs the server
-- object, and its reply goes the same way back to the callback that waits for the call's xid.
--
-- Base holds what the others share: lists and tests over the native numbers, maps as lists of entries
-- (Base.Assoc), maps in the order of their keys (Base.Ordered), and lists as arrays (Base.Arrays).
-- Xdr models xdrdemo/cxx/xdrpp/xdrpp:
--   Xdr.Word     endian.h and the numeric mixins of marshal.h; a word is a number below 2 ^ 32
--   Xdr.Error    the exceptions of types.h, and results of code that may throw
--   Xdr.Archive  xdr_generic_put and xdr_generic_get of marshal.h, with marshal.cc
--   Xdr.Codec    xdr_traits of types.h and of the classes that xdrc/gen_hh.cc generates
--   Xdr.Format   the specification: the valid values of a type, their bytes by RFC 4506, and how deep
--                they nest. Implements is the contract between a codec and a format. Its children
--                take the ways to build a codec
--   Xdr.Message  message_t, xdr_to_msg and xdr_from_msg
-- Rpc models the RPC layer of the same directory:
--   Rpc.Types, Rpc.Codec    rpc_msg.x and its generated traits
--   Rpc.Replies             the error replies of server.cc and rpc_success_hdr of server.h
--   Rpc.Status              rpc_call_stat of exception.h, with rpc_msg.cc
--   Rpc.Dispatch            service_base, rpc_server_base and the process and dispatch of the services
--   Rpc.MsgSock, Rpc.MsgIn  the two halves of msg_sock of msgsock.h and msgsock.cc
--   Rpc.Sock                rpc_sock of the same files
--   Rpc.Client, Rpc.Tier    call_result, async_client_base and async_tier of arpc.h
--   Rpc.Tracing             the maps of arpc.h, and the path that reply_cb makes of them
--   Rpc.Reply               reply_cb, reply_cb_impl and the dispatch of arpc_service of arpc.h
--   Rpc.Srpc                srpc.cc and synchronous_client_base of srpc.h
-- Poll models pollset.h and pollset.cc, the event loop that calls the sockets' callbacks: Poll the
-- callbacks of the descriptors, Poll.Rounds a round of `poll`, and Poll.Timers the timeouts.
-- Poll.Invariant says when the vector and the map of the loop belong together. Poll.Plus is
-- pollset_plus: all the sets of a process and its signals are one state, on which Poll.Plus.Reach has
-- the steps of the threads, the signal handler and the rounds in any order. A callback's acts are a
-- list that it makes of the state when it is called.
-- Kv models xdrdemo: Kv.Protocol is kvprot.x, Kv.Server is cxx/server.h and cxx/server.cc,
-- Kv.AsyncServer is cxx/async_server.h and cxx/async_server.cc, and Kv.TieringServer is
-- cxx/tiering_server.h and cxx/tiering_server.cc, with the interleavings of its callbacks in Race.
-- Kv.AsyncClient is cxx/async_client.cc, and Kv.SyncClient is cxx/client.cc. Ini is the parser of
-- iniparse.h and iniparse.cc. Print is the escapes and dumps of printer.cc.
-- The modules named Examples run the theorems at concrete inputs.
--
-- State is passed: an operation takes the object's fields as a record and returns the new record and
-- what it calls. A call of a callback is a value in that result, or in a log that the record keeps.
-- An exception is an `err`, as are a failed assertion and an access outside a buffer, which C++ does
-- not report; in Poll, `none` is each of these. Parameters stand for what lies outside: the machine's byte order, the global
-- marshaling_stack_limit, the clock, the results of system calls, whether memory can be had, and
-- whether a callback destroys its socket. Doubles are their bit patterns and text is its bytes.
--
-- The loop that pads has three rounds, which reach the next multiple of four; `input` has three, as in
-- the source; the search for a free xid has as many as `xid_` is below 2 ^ 32, behind which it is 0,
-- where the loop of the source ends. The loop of ~pollset_plus has 32, one more than there are signals.
-- `fullread` recurs on the results of its reads, behind which the
-- stream ends. `run_timeouts` has fuel, as its callbacks may set timeouts without end; the first loop of
-- `consolidate` has as many rounds as there are elements. A loop that waits for other threads runs over
-- their steps and its own tests. Any other loop is a recursion on the list that it runs over.
--
-- Not modelled: the starts of the servers, the loop of srpc_server and the listener, a full
-- self-pipe, the words and numbers of the ini parser, sockets and rpcbind, the layout of printed values,
-- and the text that the xdrc compiler reads and writes. CycleTimer.h and compat/
-- are copies of other projects.
pub mod Base
pub mod Xdr
pub mod Rpc
pub mod Kv
pub mod Poll
pub mod Ini
pub mod Print
