-- ===== src/Poll/Plus/Callbacks.antt =====
-- What a callback of xdrpp/pollset.h keeps: what each of its calls keeps.
use cs244b.Base.{
  Bool, true, false, Option, none, some, List, [], ◌∷◌, ◌≡◌, refl, All, if◌then◌else◌,
}
use cs244b.Poll.{◌>>=◌}
use cs244b.Poll.Plus.{Process, Ended, done, thrown}
use cs244b.Poll.Plus.Calls.{Act, act, when_done, perform, call}
use cs244b.Poll.Plus.Ownership.{Always}
use cs244b.Poll.Plus.Acts.{fails, Closed, act-Kept}

module _ {C : Type 0} where
  -- `sigaction` fails for no call, or, with `b`, for some.
  abbrev pub MayFail : Bool → List (Act C) → Type 0
  MayFail b acts = All (λ a. fails a ≡ true → b ≡ true) acts

  pub any_fails : (acts : List (Act C)) → MayFail true acts
  any_fails [] = tt
  any_fails (a ∷ acts) = (λ h. refl, any_fails acts)

  bind-Always :
      (P : Process C → Type 0) (o : Option (Ended C)) (next other : Process C → Option (Ended C))
      → Always P o
      → ((t : Process C) → P t → Always P (next t))
      → ((t : Process C) → P t → Always P (other t))
      → Always P (do e ← o; when_done next other e)
  bind-Always P none next other x y z = tt
  bind-Always P (some (done t)) next other x y z = y t x
  bind-Always P (some (thrown t)) next other x y z = z t x

  ended-Always :
      (P : Process C → Type 0) (test : Bool) (t : Process C)
      → P t
      → Always P (some (if test then thrown t else done t))
  ended-Always P true t x = x
  ended-Always P false t x = x

  module _ {b : Bool} {P : Process C → Type 0} (k : Closed b P) where
    pub perform-Kept :
        (acts : List (Act C)) (s : Process C) → MayFail b acts → P s → Always P (perform acts s)
    unfolding perform
    perform-Kept [] s ok x = x
    perform-Kept (a ∷ acts) s (h, ok) x =
        bind-Always P (act a s) (perform acts) (λ t. some (thrown t)) (act-Kept k a s h x)
          (λ t y. perform-Kept acts t ok y) (λ t y. y)

    pub call-Kept :
        (does : C → Process C → List (Act C)) (throws : C → Bool) (c : C) (s : Process C)
        → MayFail b (does c s)
        → P s
        → Always P (call does throws c s)
    unfolding call
    call-Kept does throws c s ok x =
        bind-Always P (perform (does c s) s) (λ t. some (if throws c then thrown t else done t))
          (λ t. some (thrown t)) (perform-Kept (does c s) s ok x)
          (λ t y. ended-Always P (throws c) t y) (λ t y. y)
