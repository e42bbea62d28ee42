-- ===== src/Poll/Invariant.antt =====
-- When `pollfds_` and `state_` of xdrpp/pollset.h belong together, and the changes that keep it so.
use cs244b.Base.{
  ℕ, ◌<◌, ◌≡◌, refl, sym, ap, ◌∙◌, subst, Bool, true, false, Option, none, some, List, ◌==◌, length,
  Bool-cases, inl, inr, arith,
}
use cs244b.Base.Arrays.{get_elem?, set, get_elem?-set, get_elem?-lt}
use cs244b.Base.Assoc.{find, assign, find-assign, nat_eq}
use cs244b.Poll.{Pollfd, FdState, Pollset, store_entry}

abbrev pub is_some : {A : Type 0} → Option A → Bool
is_some none = false
is_some (some a) = true

-- The events that a `pollfd` asks for are those that have a callback.
pub record Agrees {C : Type 0} (p : Pollfd) (fs : FdState C) : Type 0 where
  pub for_read : p.pollin ≡ is_some fs.rcb
  pub for_write : p.pollout ≡ is_some fs.wcb

-- The `pollfd` of an entry, at its index.
pub record Placed {C : Type 0} (ps : List Pollfd) (fd : ℕ) (fs : FdState C) : Type 0 where
  pub at : Pollfd
  pub there : get_elem? ps fs.idx ≡ some at
  pub own : at.fd ≡ fd
  pub agrees : Agrees at fs

-- The entry of a `pollfd`.
pub record Listed {C : Type 0} (m : List (ℕ × FdState C)) (i : ℕ) (p : Pollfd) : Type 0 where
  pub entry : FdState C
  pub found : find p.fd m ≡ some entry
  pub index : entry.idx ≡ i

pub record Inv {C : Type 0} (s : Pollset C) : Type 0 where
  pub placed : (fd : ℕ) (fs : FdState C) → find fd s.state ≡ some fs → Placed s.pollfds fd fs
  pub listed : (i : ℕ) (p : Pollfd) → get_elem? s.pollfds i ≡ some p → Listed s.state i p

-- What a user of the set sees of a descriptor: its callbacks, and whether each runs only once.
abbrev pub slot : {C : Type 0} → Option C → Bool → Option (C × Bool)
slot none oneshot = none
slot (some c) oneshot = some (c, oneshot)

abbrev pub slots : {C : Type 0} → Option (FdState C) → Option (C × Bool) × Option (C × Bool)
slots none = (none, none)
slots (some fs) = (slot fs.rcb fs.roneshot, slot fs.wcb fs.woneshot)

abbrev pub view : {C : Type 0} → ℕ → Pollset C → Option (C × Bool) × Option (C × Bool)
view fd s = slots (find fd s.state)

-- Every `pollfd` stays where it is, for its descriptor.
abbrev pub Kept : {C : Type 0} → Pollset C → Pollset C → Type 0
Kept s t =
    (i : ℕ) (p : Pollfd)
    → get_elem? s.pollfds i ≡ some p
    → (q : Pollfd) × (get_elem? t.pollfds i ≡ some q) × (q.fd ≡ p.fd)

module _ {C : Type 0} (s : Pollset C) (inv : Inv s) where
  -- No two elements have one descriptor.
  pub same_index :
      (i j : ℕ) (p q : Pollfd)
      → get_elem? s.pollfds i ≡ some p
      → get_elem? s.pollfds j ≡ some q
      → p.fd ≡ q.fd
      → i ≡ j
  same_index i j p q h k e =
      let a = inv.listed i p h in
      let b = inv.listed j q k in
      let f : find q.fd s.state ≡ some a.entry = ap (λ x. find x s.state) (sym e) ∙ a.found in
      let g : a.entry ≡ b.entry = cc in sym a.index ∙ ap (λ x. x.idx) g ∙ b.index

  module _ (fd : ℕ) (fs fs' : FdState C) (p p' : Pollfd) (there : find fd s.state ≡ some fs)
      (own : p'.fd ≡ fd) (index : fs'.idx ≡ fs.idx) (agrees : Agrees p' fs') where
    in_range : fs'.idx < length s.pollfds
    in_range =
        let q = inv.placed fd fs there in
        let r = get_elem?-lt s.pollfds fs.idx q.at q.there in omega arith

    -- An entry and its `pollfd` are replaced.
    pub store_entry-Inv : Inv (store_entry fd fs' p' s)
    unfolding store_entry
    store_entry-Inv = record {
      placed = λ d es h. elim (Bool-cases (fd == d)) [
        | inl same ↦
            let eq : some fs' ≡ some es = sym (find-assign fd d fs' s.state ∙ rw same refl) ∙ h in
            let one : fs' ≡ es = cc in
            let k : fd ≡ d = ground arith in
            subst (Placed (set s.pollfds fs'.idx p') d) one (record {
              at = p';
              there =
                  get_elem?-set s.pollfds fs'.idx fs'.idx p' in_range
                  ∙ (let z : (fs'.idx == fs'.idx) ≡ true = ground arith in rw z refl);
              own = own ∙ k;
              agrees = agrees;
            })
        | inr other ↦
            let old = inv.placed d es (sym (find-assign fd d fs' s.state ∙ rw other refl) ∙ h) in
            let now = inv.placed fd fs there in
            let apart : (fs'.idx == es.idx) ≡ false = elim (Bool-cases (fs'.idx == es.idx)) [
              | inr no_clash ↦ no_clash
              | inl clash ↦
                  let i : fs.idx ≡ es.idx = ground arith in
                  let l = inv.listed fs.idx now.at now.there in
                  let t : get_elem? s.pollfds fs.idx ≡ some old.at =
                    ap (get_elem? s.pollfds) i ∙ old.there in
                  let ats : now.at ≡ old.at = cc in
                  let ds : fd ≡ d = sym now.own ∙ ap (λ x. x.fd) ats ∙ old.own in ground arith
            ] in
            record {
              at = old.at;
              there = get_elem?-set s.pollfds fs'.idx es.idx p' in_range ∙ rw apart old.there;
              own = old.own;
              agrees = old.agrees;
            }
      ];
      listed = λ i q h. elim (Bool-cases (fs'.idx == i)) [
        | inl same ↦
            let k : fs'.idx ≡ i = ground arith in
            let eq : some p' ≡ some q =
              sym (get_elem?-set s.pollfds fs'.idx i p' in_range ∙ rw same refl) ∙ h in
            let one : p' ≡ q = cc in
            subst (Listed (assign fd fs' s.state) i) one (record {
              entry = fs';
              found =
                  find-assign fd p'.fd fs' s.state
                  ∙ (let z : (fd == p'.fd) ≡ true = ground arith in rw z refl);
              index = k;
            })
        | inr other ↦
            let old =
              inv.listed i q
                (sym (get_elem?-set s.pollfds fs'.idx i p' in_range ∙ rw other refl) ∙ h) in
            let apart : (fd == q.fd) ≡ false = elim (Bool-cases (fd == q.fd)) [
              | inr no_clash ↦ no_clash
              | inl clash ↦
                  let d : fd ≡ q.fd = ground arith in
                  let t : find q.fd s.state ≡ some fs = ap (λ x. find x s.state) (sym d) ∙ there in
                  let es : old.entry ≡ fs = cc in
                  let i' : fs.idx ≡ i = ap (λ x. x.idx) (sym es) ∙ old.index in ground arith
            ] in
            record {
              entry = old.entry;
              found = find-assign fd q.fd fs' s.state ∙ rw apart old.found;
              index = old.index;
            }
      ];
    }
