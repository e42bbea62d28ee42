-- ===== src/Rpc/MsgIn.antt =====
-- The incoming half of the message socket, `msg_sock::input` of xdrpp/msgsock.cc. A system call's
-- result is an argument, and so is what lies outside: whether memory can be had for a message of
-- some size, and whether the callback destroys the socket.
pub mod Framing
pub mod Reading
pub mod Stream
use cs244b.Base.{
  ℕ, zero, suc, ◌+◌, ◌-◌, ◌^◌, Bool, true, false, Option, none, some, List, [], ◌∷◌, ◌++◌, ltb, leb,
  ◌==◌, if◌then◌else◌, length, drop, take,
}
use cs244b.Xdr.Word.{swap32le, word_of}

-- `got` are the first `rdpos_` bytes of `rdmsg_`, whose size is `rdmsg`, or of `nextlen_` if there is
-- no `rdmsg_`. `reading` says whether the poll set watches the socket, and `calls` are the
-- arguments of `rcb_` so far, `none` for a null pointer.
pub record InSock : Type 0 where
  pub maxmsglen : ℕ
  pub rdmsg : Option ℕ
  pub got : List ℕ
  pub reading : Bool
  pub destroyed : Bool
  pub calls : List (Option (List ℕ))

-- What `read` and `readv` return: some bytes, -1 with an `errno` that `eagain` accepts, or the end of
-- the stream or another error.
pub data ReadResult : Type 0 where
  chunk : List ℕ → ReadResult
  later closed : ReadResult

-- `nextlen()`, of the four bytes of `nextlen_`. It is called only when they are there.
unfoldable pub nextlen : Bool → List ℕ → ℕ
unfolding swap32le word_of
nextlen big (a ∷ b ∷ c ∷ d ∷ _) = swap32le big (word_of big a b c d)
nextlen big _ = 0

-- `sizeof nextlen_`
abbrev pub sizeof_nextlen : ℕ
sizeof_nextlen = 4

-- How many bytes a round asks for: the rest of the message and the next length, or the rest of the
-- length.
abbrev pub wanted_for : Option ℕ → List ℕ → ℕ
wanted_for (some size) got = size - length got + sizeof_nextlen
wanted_for none got = sizeof_nextlen - length got

abbrev pub wanted : InSock → ℕ
wanted s = wanted_for s.rdmsg s.got

module _ (big : Bool) (memory : ℕ → Bool) (kills : Option (List ℕ) → Bool) where
  -- `rcb_(msg)`
  abbrev pub call_back : Option (List ℕ) → InSock → InSock
  call_back msg s = record s { calls = s.calls ++ (msg ∷ []); destroyed = kills msg }

  -- Behind the check of the fragment bit, with a length that is not zero.
  unfoldable pub allocate : ℕ → InSock → InSock
  allocate len s =
      if leb len s.maxmsglen
      then if memory len then record s { rdmsg = some len; got = [] } else call_back none s
      else call_back none (record s { reading = false })

  -- A round's second half: the four bytes of the length are there. The Boolean says whether the
  -- loop goes on.
  unfoldable pub start_message : InSock → InSock × Bool
  unfolding nextlen allocate
  start_message s =
      let len = nextlen big s.got in
      if ltb len (2 ^ 31)
      then (call_back none s, false)
      else if len - 2 ^ 31 == 0
      then (call_back (some []) (record s { got = [] }), true)
      else (allocate (len - 2 ^ 31) s, true)

  -- `if (rdmsg_ || rdpos_ < sizeof nextlen_) return;` where there is no `rdmsg_`.
  unfoldable pub with_length : InSock → InSock × Bool
  unfolding start_message
  with_length s = if ltb (length s.got) sizeof_nextlen then (s, false) else start_message s

  unfoldable pub finish_message : ℕ → InSock → InSock × Bool
  unfolding with_length
  finish_message size s =
      let s' =
        call_back (some (take size s.got)) (record s { rdmsg = none; got = drop size s.got }) in
      if s'.destroyed then (s', false) else with_length s'

  unfoldable pub read_body : ℕ → ReadResult → InSock → InSock × Bool
  unfolding finish_message
  read_body size (chunk bs) s =
      if leb size (length (s.got ++ bs))
      then finish_message size (record s { got = s.got ++ bs })
      else (record s { got = s.got ++ bs }, false)
  read_body size later s = (s, false)
  read_body size closed s = (call_back none s, false)

  unfoldable pub read_length : ReadResult → InSock → InSock × Bool
  unfolding with_length
  read_length (chunk bs) s = with_length (record s { got = s.got ++ bs })
  read_length later s = (s, false)
  read_length closed s = (call_back none s, false)

  unfoldable pub read_for : Option ℕ → ReadResult → InSock → InSock × Bool
  unfolding read_body read_length start_message
  read_for (some size) r s = read_body size r s
  read_for none r s = if ltb (length s.got) sizeof_nextlen then read_length r s else start_message s

  -- The body of the loop, with the result of the system call if the round makes one.
  unfoldable pub round : ReadResult → InSock → InSock × Bool
  unfolding read_for
  round r s = read_for s.rdmsg r s

  -- The `for` loop, with the rounds that are left: the results of their system calls.
  unfoldable pub rounds : List ReadResult → InSock × Bool → InSock
  unfolding round
  rounds [] (s, more) = s
  rounds (r ∷ rs) (s, false) = s
  rounds (r ∷ rs) (s, true) = let rest = rounds rs (round r s) in if s.destroyed then s else rest

  -- `msg_sock::input`: at most three rounds.
  unfoldable pub input : ReadResult → ReadResult → ReadResult → InSock → InSock
  unfolding rounds
  input r₁ r₂ r₃ s = rounds (r₁ ∷ r₂ ∷ r₃ ∷ []) (s, true)
