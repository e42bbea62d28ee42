-- ===== src/Rpc/MsgIn/Stream.antt =====
-- The messages that `msg_sock::input` of xdrpp/msgsock.cc delivers from a stream of frames.
use cs244b.Base.{
  ℕ, ◌+◌, ◌^◌, ◌<◌, ◌≡◌, refl, sym, ap, ap₂, ◌∙◌, ◌≢◌, Bool, true, false, Option, none, some, List,
  [], ◌∷◌, ◌++◌, length, take, drop, take-append, drop-append, append_assoc, All, arith,
}
use cs244b.Xdr.Word.{be32, of_be32}
use cs244b.Xdr.Format.Words.{length-be32}
use cs244b.Rpc.MsgIn.{InSock, ReadResult, input}
use cs244b.Rpc.MsgIn.Framing.{frame, frames, held, IsCall, Holds}
use cs244b.Rpc.MsgIn.Reading.{AllReturn, all_bytes, input-Holds}

-- The messages among the callback's arguments.
abbrev pub somes : List (Option (List ℕ)) → List (List ℕ)
somes [] = []
somes (none ∷ calls) = somes calls
somes (some body ∷ calls) = body ∷ somes calls

abbrev pub framed_all : List (List ℕ) → List ℕ
framed_all [] = []
framed_all (body ∷ bodies) = (be32 (length body + 2 ^ 31) ++ body) ++ framed_all bodies

frames-somes : (calls : List (Option (List ℕ))) → frames calls ≡ framed_all (somes calls)
frames-somes [] = refl
frames-somes (none ∷ calls) = frames-somes calls
frames-somes (some body ∷ calls) = ap (◌++◌ (frame (some body))) (frames-somes calls)

abbrev pub IsShort : List ℕ → Type 0
IsShort body = length body < 2 ^ 31

somes-IsShort : (calls : List (Option (List ℕ))) → All IsCall calls → All IsShort (somes calls)
somes-IsShort [] h = tt
somes-IsShort (none ∷ calls) (_, h) = somes-IsShort calls h
somes-IsShort (some body ∷ calls) (k, h) = (k, somes-IsShort calls h)

append-cancel :
    (us vs xs ys : List ℕ) → length us ≡ length vs → us ++ xs ≡ vs ++ ys → (us ≡ vs) × (xs ≡ ys)
append-cancel us vs xs ys n e = (
  sym (take-append us xs)
      ∙ ap (take (length us)) e
      ∙ ap (λ k. take k (vs ++ ys)) n
      ∙ take-append vs ys,
  sym (drop-append us xs)
      ∙ ap (drop (length us)) e
      ∙ ap (λ k. drop k (vs ++ ys)) n
      ∙ drop-append vs ys,
)

abbrev word : List ℕ → ℕ
word (a ∷ b ∷ c ∷ d ∷ _) = of_be32 a b c d
word _ = 0

be32-injective : (a b : ℕ) → a < 2 ^ 32 → b < 2 ^ 32 → be32 a ≡ be32 b → a ≡ b
unfolding be32
be32-injective a b ha hb e = let w : word (be32 a) ≡ word (be32 b) = ap word e in omega arith

-- A stream of frames splits into frames in one way.
first_frame :
    (body other xs ys : List ℕ)
    → IsShort body
    → IsShort other
    → (be32 (length body + 2 ^ 31) ++ body) ++ xs ≡ (be32 (length other + 2 ^ 31) ++ other) ++ ys
    → (body ≡ other) × (xs ≡ ys)
first_frame body other xs ys h k e =
    let l : List ℕ = be32 (length body + 2 ^ 31) in
    let r : List ℕ = be32 (length other + 2 ^ 31) in
    let (marks, rest) =
      append-cancel l r (body ++ xs) (other ++ ys)
        (length-be32 (length body + 2 ^ 31) ∙ sym (length-be32 (length other + 2 ^ 31)))
        (sym (append_assoc l body xs) ∙ e ∙ append_assoc r other ys) in
    let n : length body + 2 ^ 31 ≡ length other + 2 ^ 31 =
      be32-injective (length body + 2 ^ 31) (length other + 2 ^ 31) (omega arith) (omega arith)
        marks in
    append-cancel body other xs ys (omega arith) rest

short-frame : (body xs : List ℕ) → (be32 (length body + 2 ^ 31) ++ body) ++ xs ≢ []
unfolding be32
short-frame body xs e = cc

framed_prefix :
    (got sent : List (List ℕ)) (rest : List ℕ)
    → All IsShort got
    → All IsShort sent
    → framed_all got ++ rest ≡ framed_all sent
    → (more : List (List ℕ)) × (got ++ more ≡ sent)
framed_prefix [] sent rest g s e = (sent, refl)
framed_prefix (body ∷ got) [] rest g s e = absurd (
    short-frame body (framed_all got ++ rest)
      (sym (append_assoc (be32 (length body + 2 ^ 31) ++ body) (framed_all got) rest) ∙ e))
framed_prefix (body ∷ got) (other ∷ sent) rest (b, g) (o, s) e =
    let (same, tail) =
      first_frame body other (framed_all got ++ rest) (framed_all sent) b o
        (sym (append_assoc (be32 (length body + 2 ^ 31) ++ body) (framed_all got) rest) ∙ e) in
    let (more, whole) = framed_prefix got sent rest g s tail in (more, ap₂ ◌∷◌ same whole)

module _ (big : Bool) (memory : ℕ → Bool) (kills : Option (List ℕ) → Bool) where
  -- The states that calls of `input` lead to, with the bytes that they read.
  pub data Reads : InSock → List ℕ → Type 0 where
    open_sock :
        (maxmsglen : ℕ)
        → Reads
            (record {
              maxmsglen = maxmsglen;
              rdmsg = none;
              got = [];
              reading = true;
              destroyed = false;
              calls = [];
            })
            []
    readable :
        {s : InSock} {received : List ℕ} (r₁ r₂ r₃ : ReadResult)
        → Reads s received
        → AllReturn big memory kills (r₁ ∷ r₂ ∷ r₃ ∷ []) (s, true)
        → Reads
            (input big memory kills r₁ r₂ r₃ s)
            (received ++ all_bytes big memory kills (r₁ ∷ r₂ ∷ r₃ ∷ []) (s, true))

  Reads-Holds : (s : InSock) (received : List ℕ) → Reads s received → Holds received s
  Reads-Holds s received (open_sock n) = (refl, omega arith, (tt, tt))
  Reads-Holds s received (readable {s = s₀} {received = received₀} r₁ r₂ r₃ reads k) =
      input-Holds big memory kills r₁ r₂ r₃ s₀ received₀ (Reads-Holds s₀ received₀ reads) k

  -- In every state that calls of `input` lead to, if the bytes read so far are the front of the
  -- frames of some messages, each shorter than 2 ^ 31 bytes, then the messages delivered so far
  -- are the first of these messages, in order and each once, however the stream was cut into
  -- reads.
  pub Reads-prefix :
      (s : InSock) (received under_way : List ℕ) (sent : List (List ℕ))
      → Reads s received
      → All IsShort sent
      → received ++ under_way ≡ framed_all sent
      → (more : List (List ℕ)) × (somes s.calls ++ more ≡ sent)
  Reads-prefix s received under_way sent reads h e =
      let (split, _, (_, short)) = Reads-Holds s received reads in
      framed_prefix (somes s.calls) sent (held s ++ under_way) (somes-IsShort s.calls short) h (
        sym (append_assoc (framed_all (somes s.calls)) (held s) under_way)
        ∙ ap (λ xs. (xs ++ held s) ++ under_way) (sym (frames-somes s.calls))
        ∙ ap (λ xs. xs ++ under_way) split
        ∙ e)
