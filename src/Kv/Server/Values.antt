-- ===== src/Kv/Server/Values.antt =====
-- The values that the servers of cxx/server.cc and async_server.cc store and send.
use cs244b.Base.{
  ℕ, ◌≤◌, ◌≡◌, refl, sym, ◌∙◌, subst, Bool, true, false, Option, none, some, List, [], length,
  length-append, if◌then◌else◌, Bool-cases, inl, inr, arith,
}
use cs244b.Base.Assoc.{find, assign, find-assign, text_eq}
use cs244b.Xdr.Word.{be32}
use cs244b.Xdr.Format.{padded}
use cs244b.Xdr.Format.Padding.{length-padded}
use cs244b.Xdr.Format.Words.{length-be32}
use cs244b.Kv.Protocol.Format.{value_format, get_res_format}
use cs244b.Kv.Server.{Store, found_value}

-- Every stored value fits the protocol.
abbrev pub IsSound : Store → Type 0
IsSound vals = (k v : List ℕ) → find k vals ≡ some v → value_format.IsValid v

pub assign-IsSound :
    (k v : List ℕ) (vals : Store)
    → value_format.IsValid v
    → IsSound vals
    → IsSound (assign k v vals)
assign-IsSound k v vals h s j w e = elim (Bool-cases (text_eq.same k j)) [
  | inl b ↦
      let same : some v ≡ some w = sym (find-assign k j v vals ∙ rw b refl) ∙ e in
      subst value_format.IsValid (cc) h
  | inr b ↦ s j w (sym (find-assign k j v vals ∙ rw b refl) ∙ e)
]

pub found_value-IsValid :
    (o : Option (List ℕ))
    → ((v : List ℕ) → o ≡ some v → value_format.IsValid v)
    → get_res_format.IsValid (found_value o)
unfolding found_value
found_value-IsValid none h = (omega arith, omega arith)
found_value-IsValid (some v) h = (omega arith, h v refl)

pub found_value-depth : (o : Option (List ℕ)) → get_res_format.depth (found_value o) ≤ 8
unfolding found_value
found_value-depth none = omega arith
found_value-depth (some v) = omega arith

pub found_value-length :
    (o : Option (List ℕ))
    → ((v : List ℕ) → o ≡ some v → value_format.IsValid v)
    → length (get_res_format.bytes (found_value o)) ≤ 1024
unfolding found_value
found_value-length none h = omega (arith, length-append (be32 1) [], length-be32 1)
found_value-length (some v) h = omega (
  arith,
  (h v refl).0,
  length-append (be32 0) (value_format.bytes v),
  length-be32 0,
  length-append (be32 (length v)) (padded v),
  length-be32 (length v),
  length-padded v,
)

pub if-found :
    (b : Bool) (o p : Option (List ℕ))
    → found_value (if b then o else p) ≡ (if b then found_value o else found_value p)
if-found true o p = refl
if-found false o p = refl
