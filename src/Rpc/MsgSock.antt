-- ===== src/Rpc/MsgSock.antt =====
-- The outgoing half of the message socket of xdrpp/msgsock.h and msgsock.cc: a queue of messages. A
-- system call's result is an argument, and the poll set is what the record says of it. A message in
-- the queue never is null.
pub mod Output
pub mod Writing
pub mod Sending
pub mod Stall
use cs244b.Base.{
  ℕ, zero, suc, ◌+◌, ◌-◌, Bool, true, false, not, ◌&&◌, Option, none, some, List, [], ◌∷◌, ◌++◌,
  ltb, leb, ◌==◌, if◌then◌else◌, length, drop, take,
}
use cs244b.Xdr.Error.{Result, ok, err, ◌>>=◌, assertion, fault}
use cs244b.Xdr.Message.{Message}

-- `raw_data()`: the record mark and the data.
abbrev pub raw : Message → List ℕ
raw msg = msg.header ++ msg.body

-- The outgoing half of a `msg_sock`. `writing` says whether the poll set calls `output(true)` when
-- the socket can be written.
pub record OutSock : Type 0 where
  pub wqueue : List (List ℕ)
  pub wsize : ℕ
  pub wstart : ℕ
  pub wfail : Bool
  pub writing : Bool

-- What `writev` returns: a positive count, -1 with an `errno` that `eagain` accepts, or anything
-- else.
pub data WriteResult : Type 0 where
  wrote : ℕ → WriteResult
  again broken : WriteResult

-- `while (n > 0 && n >= (frontbytes = wqueue_.front()->raw_size()))`, and the `n` that is left.
-- `front()` of an empty queue is a fault.
unfoldable pub pop_whole : ℕ → List (List ℕ) → Result (ℕ × List (List ℕ))
pop_whole n [] = if n == 0 then ok (0, []) else err fault
pop_whole n (front ∷ queue) =
    let rest = pop_whole (n - length front) queue in
    if ltb 0 n && leb (length front) n then rest else ok (n, front ∷ queue)

-- Behind the first message's `n < frontbytes`.
unfoldable pub popped : OutSock → Result (ℕ × List (List ℕ)) → Result OutSock
popped s (ok (n, queue)) = ok (record s { wqueue = queue; wstart = n })
popped s (err e) = err e

unfoldable pub pop_front : ℕ → OutSock → List (List ℕ) → Result OutSock
unfolding popped pop_whole
pop_front n s [] = err fault
pop_front n s (front ∷ queue) =
    let frontbytes = length front - s.wstart in
    if ltb n frontbytes
    then ok (record s { wstart = s.wstart + n })
    else popped s (pop_whole (n - frontbytes) queue)

unfoldable pub pop_wbytes : ℕ → OutSock → Result OutSock
unfolding pop_front
pop_wbytes n s =
    if n == 0
    then ok s
    else if leb n s.wsize
    then pop_front n (record s { wsize = s.wsize - n }) s.wqueue
    else err assertion

abbrev pub concat : List (List ℕ) → List ℕ
concat [] = []
concat (xs ∷ xss) = xs ++ concat xss

-- The bytes that the at most eight vectors offer to `writev`: the first starts at `wstart_`.
unfoldable pub offered : OutSock → List ℕ
offered s = drop s.wstart (concat (take 8 s.wqueue))

-- The change to the poll set behind `pop_wbytes`.
unfoldable pub watch : Bool → OutSock → OutSock
watch cbset s =
    if ltb 0 s.wsize && not cbset
    then record s { writing = true }
    else if s.wsize == 0 && cbset
    then record s { writing = false }
    else s

-- `msg_sock::output`
unfoldable pub output : Bool → WriteResult → OutSock → Result OutSock
unfolding pop_wbytes watch
output cbset (wrote n) s = do s' ← pop_wbytes n s; ok (watch cbset s')
output cbset again s = ok s
output cbset broken s = ok (record s { wfail = true; wsize = 0; wstart = 0; wqueue = [] })

abbrev pub enqueue : Message → OutSock → OutSock
enqueue msg s = record s { wsize = s.wsize + length (raw msg); wqueue = s.wqueue ++ (raw msg ∷ []) }

-- `msg_sock::putmsg`, with the result of the `writev` that `output` calls, if it is called.
unfoldable pub putmsg : Message → WriteResult → OutSock → Result OutSock
unfolding output
putmsg msg r s =
    let s' = enqueue msg s in
    if s.wfail then ok s else if s.wsize == 0 then output false r s' else ok s'
