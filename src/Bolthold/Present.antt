-- ===== src/Bolthold/Present.antt =====
-- Whether a query finds a row, before and after a row is added.
use coriolis_snapshot_agent.Common.{
  ◌≡◌, true, Bool, List, [], ◌∷◌, String, any, any-append, arith, inl, inr, Bool-cases,
}
use coriolis_snapshot_agent.Bolthold.{Bolthold}
use coriolis_snapshot_agent.Bolthold.{matching}

abbrev pub IsPresent : {V : Type 0} → (V → Bool) → List (String × V) → Type 0
IsPresent p r = any (λ x. p (x.1)) r ≡ true

pub matching-IsPresent :
    {V : Type 0} (p : V → Bool) (r : List (String × V)) (v : V) (vs : List V)
    → matching p r ≡ v ∷ vs
    → IsPresent p r
matching-IsPresent p [] v vs h = absurd (cc (h))
matching-IsPresent p ((k, w) ∷ r) v vs h = elim (Bool-cases (p w)) [
  | inl t ↦ ground (arith, t)
  | inr t ↦ ground (arith, t, matching-IsPresent p r v vs (ground (arith, t, h)))
]

module _ ⦃bolt : Bolthold⦄ where
  open bolt use {Bucket, rows, inserted, inserted_rows}

  pub IsPresent-inserted :
      {V : Type 0} (p : V → Bool) (k : String) (v : V) (b : Bucket V)
      → IsPresent p (rows V b)
      → IsPresent p (rows V (inserted V k v b))
  IsPresent-inserted {V} p k v b h =
      let (l, r, e, f) = inserted_rows V k v b in
      let q : String × V → Bool = λ x. p (x.1) in
      ground (arith, h, e, f, any-append q l r, any-append q l ((k, v) ∷ r))
