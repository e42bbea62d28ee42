-- ===== src/Xdr/Message/Parts.antt =====
-- A message of two values, as xdrpp/arpc.h and xdrpp/srpc.h read it: one after the other.
use cs244b.Base.{◌≡◌, ap, ◌∙◌}
use cs244b.Xdr.Error.{ok, bind-ok}
use cs244b.Xdr.Archive.{GetArchive, done}
use cs244b.Xdr.Codec.{Codec, pair}
use cs244b.Xdr.Message.{Machine, Message, xdr_get, xdr_from_msg}

-- The archives before and behind each value.
pub record Parts {A B : Type 0} (m : Machine) (c : Codec A) (d : Codec B) (msg : Message) (a : A)
    (b : B) : Type 0 where
  pub start : GetArchive
  pub middle : GetArchive
  pub last : GetArchive
  pub opened : xdr_get m msg ≡ ok start
  pub first_read : c.get start ≡ ok (a, middle)
  pub second_read : d.get middle ≡ ok (b, last)
  pub closed : done last ≡ ok tt

pub parts_lem :
    {A B : Type 0} (m : Machine) (c : Codec A) (d : Codec B) (msg : Message) (a : A) (b : B)
    → xdr_from_msg m (pair c d) msg ≡ ok (a, b)
    → Parts m c d msg a b
unfolding xdr_from_msg pair
parts_lem m c d msg a b h =
    let (g, e, h₁) = bind-ok (xdr_get m msg) _ _ h in
    let (both, e₂, h₂) = bind-ok ((pair c d).get g) _ _ h₁ in
    let (head, e₃, h₃) = bind-ok (c.get g) _ _ e₂ in
    let (tail, e₄, h₄) = bind-ok (d.get head.1) _ _ h₃ in
    let (u, e₅, h₅) = bind-ok (done both.1) _ _ h₂ in
    let all : ((head.0, tail.0), tail.1) ≡ both = cc in
    let one : head.0 ≡ a = ap (λ p. p.0.0) all ∙ cc in
    let two : tail.0 ≡ b = ap (λ p. p.0.1) all ∙ cc in
    record {
      start = g;
      middle = head.1;
      last = tail.1;
      opened = e;
      first_read = e₃ ∙ ap (λ x. ok (x, head.1)) one;
      second_read = e₄ ∙ ap (λ x. ok (x, tail.1)) two;
      closed = ap (λ p. done p.1) all ∙ e₅;
    }
