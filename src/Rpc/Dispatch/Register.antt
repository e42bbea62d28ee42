-- ===== src/Rpc/Dispatch/Register.antt =====
-- The table of services of `rpc_server_base`, as a map from program and version.
use cs244b.Base.{ℕ, ◌≡◌, refl, Option, some, arith, ◌==◌, ◌&&◌, if◌then◌else◌, Bool-cases, inl, inr}
use cs244b.Base.Ordered
use cs244b.Base.Ordered.{IsSorted, assign-IsSorted}
use cs244b.Rpc.Dispatch.{Service, Servers, versions_of, register_service_base}

-- The service that answers a program and version.
abbrev pub lookup : {S : Type 0} → Servers S → ℕ → ℕ → Option (Service S)
lookup servers p v = Ordered.find v (versions_of (Ordered.find p servers))

-- Both levels of the table are in the order of their keys.
abbrev pub IsRegistry : {S : Type 0} → Servers S → Type 0
IsRegistry servers = IsSorted servers × ((p : ℕ) → IsSorted (versions_of (Ordered.find p servers)))

versions_after :
    {S : Type 0} (s : Service S) (servers : Servers S) (p : ℕ)
    → IsSorted servers
    → versions_of (Ordered.find p (register_service_base s servers)) ≡ (
        if s.prog == p
        then Ordered.assign s.vers s (versions_of (Ordered.find s.prog servers))
        else versions_of (Ordered.find p servers))
unfolding register_service_base
versions_after s servers p h =
    rw
      (Ordered.find-assign s.prog p
        (Ordered.assign s.vers s (versions_of (Ordered.find s.prog servers))) servers h)
      (elim (Bool-cases (s.prog == p)) [ inl e ↦ rw e refl | inr e ↦ rw e refl ])

-- `register_service_base` keeps both levels of the table in the order of their keys.
pub register_service_base-IsRegistry :
    {S : Type 0} (s : Service S) (servers : Servers S)
    → IsRegistry servers
    → IsRegistry (register_service_base s servers)
unfolding register_service_base
register_service_base-IsRegistry s servers h = (
  assign-IsSorted s.prog _ servers (h.0),
  λ p. elim (Bool-cases (s.prog == p)) [
    | inl e ↦ rw (versions_after s servers p (h.0), e) (assign-IsSorted s.vers s _ (h.1 s.prog))
    | inr e ↦ rw (versions_after s servers p (h.0), e) (h.1 p)
  ],
)

-- In a table that is in order, after `register_service_base` the registered service answers its
-- own program and version, and every other program and version is answered as before.
pub lookup-register_service_base :
    {S : Type 0} (s : Service S) (servers : Servers S) (p v : ℕ)
    → IsRegistry servers
    → lookup (register_service_base s servers) p v
      ≡ (if (s.prog == p) && (s.vers == v) then some s else lookup servers p v)
lookup-register_service_base s servers p v h = elim (Bool-cases (s.prog == p)) [
  | inl e ↦
      let q : s.prog ≡ p = ground arith in
      rw
        (
          versions_after s servers p (h.0),
          e,
          Ordered.find-assign s.vers v s (versions_of (Ordered.find s.prog servers)) (h.1 s.prog),
          q,
        )
        refl
  | inr e ↦ rw (versions_after s servers p (h.0), e) refl
]
