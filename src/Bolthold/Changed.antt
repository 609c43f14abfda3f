-- ===== src/Bolthold/Changed.antt =====
-- What a query finds after a row was added, replaced or taken away.
use coriolis_snapshot_agent.Common.{
  ◌≡◌, refl, sym, ap, ◌∙◌, ◌⊎◌, inl, inr, Bool, false, not, List, [], ◌∷◌, ◌++◌, map, String, ◌==◌,
  All, select, arith,
}
use coriolis_snapshot_agent.Bolthold.{Bolthold}
use coriolis_snapshot_agent.Bolthold.Rows.{matching, replaced, without}

module _ {V : Type 0} where
  matching-past :
      (p : V → Bool) (j : String) (v : V) (l r : List (String × V))
      → p v ≡ false
      → matching p (l ++ (j, v) ∷ r) ≡ matching p (l ++ r)
  matching-past p j v [] r h = ground (arith, h)
  matching-past p j v ((i, w) ∷ l) r h = ground (arith, matching-past p j v l r h)

  -- A row that is replaced by one that looks the same to the query.
  pub matching-replaced_alike :
      {B : Type 0} (f : V → B) (p : V → Bool) (j : String) (v : V) (r : List (String × V))
      → All (λ (x : String × V). ((x.0 == j) ≡ false) ⊎ ((p x.1 ≡ p v) × (f x.1 ≡ f v))) r
      → map f (matching p (replaced j v r)) ≡ map f (matching p r)
  matching-replaced_alike f p j v [] h = refl
  matching-replaced_alike f p j v ((i, w) ∷ r) (inl a, h) =
      ground (arith, a, matching-replaced_alike f p j v r h)
  matching-replaced_alike f p j v ((i, w) ∷ r) (inr (a, b), h) =
      ground (arith, a, b, matching-replaced_alike f p j v r h)

  -- Where the rows stand under the keys of their values, the values without a key are left.
  pub matching-without :
      (key : V → String) (p : V → Bool) (j : String) (r : List (String × V))
      → All (λ (x : String × V). x.0 ≡ key x.1) r
      → matching p (without j r) ≡ select (λ v. not (key v == j)) (matching p r)
  matching-without key p j [] h = refl
  matching-without key p j ((i, w) ∷ r) (e, h) = ground (arith, e, matching-without key p j r h)

module _ ⦃bolt : Bolthold⦄ where
  open bolt use {Bucket, rows, inserted, inserted_rows}

  pub matching-inserted_other :
      {V : Type 0} (p : V → Bool) (j : String) (v : V) (b : Bucket V)
      → p v ≡ false
      → matching p (rows V (inserted V j v b)) ≡ matching p (rows V b)
  matching-inserted_other {V} p j v b h =
      let (l, r, e, f) = inserted_rows V j v b in
      ap (matching p) f ∙ matching-past p j v l r h ∙ ap (matching p) (sym e)
