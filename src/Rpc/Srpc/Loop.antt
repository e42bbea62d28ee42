-- ===== src/Rpc/Srpc/Loop.antt =====
-- What the loop of `fullread` of xdrpp/srpc.cc returns, however the stream is cut into reads.
use cs244b.Base.{
  ℕ, zero, suc, ◌-◌, ◌<◌, ◌≡◌, refl, ap, Option, none, some, List, [], ◌∷◌, ◌++◌, length,
  length-append, All, arith,
}
use cs244b.Rpc.Srpc.{Read, bytes, broken, prepend, fullread}

-- Reads that each return something, and what they return together.
abbrev pub reads : List (List ℕ) → List Read
reads [] = []
reads (bs ∷ bss) = bytes bs ∷ reads bss

abbrev pub joined : List (List ℕ) → List ℕ
joined [] = []
joined (bs ∷ bss) = bs ++ joined bss

abbrev pub Arrives : List ℕ → Type 0
Arrives bs = 0 < length bs

-- The reads return just the bytes that are wanted.
pub fullread_full :
    (n : ℕ) (bss : List (List ℕ)) (rs : List Read)
    → All Arrives bss
    → length (joined bss) ≡ n
    → fullread n (reads bss ++ rs) ≡ (some (joined bss), rs)
unfolding fullread
fullread_full zero [] rs h e = refl
fullread_full (suc n) [] rs h e = absurd (omega arith)
fullread_full n ([] ∷ bss) rs h e = absurd (omega (arith, h.0))
fullread_full zero ((b ∷ bs) ∷ bss) rs h e = absurd (omega arith)
fullread_full (suc n) ((b ∷ bs) ∷ bss) rs h e =
    ap (prepend (b ∷ bs))
      (fullread_full (n - length bs) bss rs (h.1) (omega (arith, length-append bs (joined bss))))

-- How a stream stops: its end, or an error.
pub data Stop : Type 0 where
  end_of_stream read_error : Stop

abbrev pub stop_read : Stop → Read
stop_read end_of_stream = bytes []
stop_read read_error = broken

abbrev pub stopped : Stop → List ℕ → Option (List ℕ)
stopped end_of_stream got = some got
stopped read_error got = none

prepend-stopped :
    (stop : Stop) (bs got : List ℕ) (rs : List Read)
    → prepend bs (stopped stop got, rs) ≡ (stopped stop (bs ++ got), rs)
prepend-stopped end_of_stream bs got rs = refl
prepend-stopped read_error bs got rs = refl

-- The stream stops before the bytes that are wanted are there.
pub fullread_short :
    (stop : Stop) (n : ℕ) (bss : List (List ℕ)) (rs : List Read)
    → All Arrives bss
    → length (joined bss) < n
    → fullread n (reads bss ++ (stop_read stop ∷ rs)) ≡ (stopped stop (joined bss), rs)
unfolding fullread
fullread_short stop zero bss rs h e = absurd (omega arith)
fullread_short end_of_stream (suc n) [] rs h e = refl
fullread_short read_error (suc n) [] rs h e = refl
fullread_short stop (suc n) ([] ∷ bss) rs h e = absurd (omega (arith, h.0))
fullread_short stop (suc n) ((b ∷ bs) ∷ bss) rs h e =
    rw
      (fullread_short stop (n - length bs) bss rs (h.1)
        (omega (arith, length-append bs (joined bss))))
      (prepend-stopped stop (b ∷ bs) (joined bss) rs)
