-- ===== src/Manager/Registry/Rules.antt =====
-- What follows from the rules of a registry.
use coriolis_snapshot_agent.Common.{
  ◌≡◌, inl, inr, String, Option, none, some, ◌==◌, arith, Bool-cases, eq_iff,
}
use coriolis_snapshot_agent.Manager.Registry.{
  Held, Registry, dropped, Change, map_disk, add_store, drop_store, Changes, done, further,
}

-- A mapping stays.
Change-mapped :
    (r r' : Registry) (disk place : String)
    → Change r r'
    → r.mapping_of disk ≡ some place
    → r'.mapping_of disk ≡ some place
Change-mapped r r' disk place (map_disk d p n e) h = elim (Bool-cases (d == disk)) [
  | inl t ↦
      let same : d ≡ disk = ground (arith, t, eq_iff d disk) in absurd (ground (arith, same, n, h))
  | inr t ↦ rw e (ground (arith, t, h))
]
Change-mapped r r' disk place (add_store d i p m n e) h = rw e h
Change-mapped r r' disk place (drop_store i e) h = rw e h

pub Changes-mapped :
    {r r' : Registry} (disk place : String)
    → Changes r r'
    → r.mapping_of disk ≡ some place
    → r'.mapping_of disk ≡ some place
Changes-mapped disk place done h = h
Changes-mapped disk place (further {s} {t} c k) h =
    Change-mapped s t disk place k (Changes-mapped disk place c h)

-- Every snap store lies at the place that its disk is mapped to.
unfoldable pub IsPlaced : Registry → Type 0
IsPlaced r =
    (disk : String) (h : Held) → r.store_of disk ≡ some h → r.mapping_of disk ≡ some h.place

still : (id : String) (o : Option Held) (h : Held) → dropped id o ≡ some h → o ≡ some h
still id none h e = absurd (ground (arith, e))
still id (some g) h e = elim (Bool-cases (g.id == id)) [
  | inl t ↦ absurd (ground (arith, t, e))
  | inr t ↦ ground (arith, t, e)
]

Change-IsPlaced : (r r' : Registry) → Change r r' → IsPlaced r → IsPlaced r'
unfolding IsPlaced
Change-IsPlaced r r' (map_disk d p n e) q disk h k =
    let held : r.store_of disk ≡ some h = ground (arith, e, k) in
    Change-mapped r r' disk h.place (map_disk d p n e) (q disk h held)
Change-IsPlaced r r' (add_store d i p m n e) q disk h k = elim (Bool-cases (d == disk)) [
  | inl t ↦
      let same : d ≡ disk = ground (arith, t, eq_iff d disk) in ground (arith, e, k, t, m, same)
  | inr t ↦
      let held : r.store_of disk ≡ some h = ground (arith, e, k, t) in
      ground (arith, e, q disk h held)
]
Change-IsPlaced r r' (drop_store i e) q disk h k =
    let held : r.store_of disk ≡ some h = still i (r.store_of disk) h (ground (arith, e, k)) in
    ground (arith, e, q disk h held)

pub Changes-IsPlaced : {r r' : Registry} → Changes r r' → IsPlaced r → IsPlaced r'
Changes-IsPlaced done q = q
Changes-IsPlaced (further {s} {t} c k) q = Change-IsPlaced s t k (Changes-IsPlaced c q)
