-- ===== src/Bolthold/Unique.antt =====
-- Rows that are told apart by a text in their value.
use coriolis_snapshot_agent.Common.{
  ℕ, ◌+◌, ◌≤◌, ◌≡◌, refl, sym, ap, ◌∙◌, ◌⊎◌, inl, inr, Bool, false, List, [], ◌∷◌, ◌++◌, String,
  ◌==◌, All, length, arith, Bool-cases, eq_iff,
}
use coriolis_snapshot_agent.Bolthold.{Bolthold}
use coriolis_snapshot_agent.Bolthold.Rows.{matching, replaced, without}

module _ {V : Type 0} where
  empty_of : (vs : List V) → length vs ≤ 0 → vs ≡ []
  empty_of [] h = refl
  empty_of (v ∷ vs) h = absurd (ground (arith, h))

  none_left :
      (p : V → Bool) (v : V) (r : List (String × V))
      → matching p r ≡ []
      → All (λ (x : String × V). ((p x.1) ≡ false) ⊎ (x.1 ≡ v)) r
  none_left p v [] h = tt
  none_left p v ((j, u) ∷ r) h = elim (Bool-cases (p u)) [
    | inl t ↦ absurd (ground (arith, h, t))
    | inr t ↦ (inl t, none_left p v r (ground (arith, h, t)))
  ]

  -- If at most one row matches, a row that does is the first.
  pub sole :
      (p : V → Bool) (r : List (String × V)) (v : V) (vs : List V)
      → matching p r ≡ v ∷ vs
      → length (matching p r) ≤ 1
      → All (λ (x : String × V). ((p x.1) ≡ false) ⊎ (x.1 ≡ v)) r
  sole p [] v vs h n = tt
  sole p ((j, u) ∷ r) v vs h n = elim (Bool-cases (p u)) [
    | inr t ↦ (inl t, sole p r v vs (ground (arith, h, t)) (ground (arith, n, t)))
    | inl t ↦ (
      inr (ground (arith, h, t)),
      none_left p v r (empty_of (matching p r) (ground (arith, n, t))),
    )
  ]

  module _ (key : V → String) where
    abbrev pub count : String → List (String × V) → ℕ
    count k r = length (matching (λ v. key v == k) r)

    -- No two rows have the same text.
    unfoldable pub IsUnique : List (String × V) → Type 0
    IsUnique r = (k : String) → count k r ≤ 1

    count-append : (k : String) (l r : List (String × V)) → count k (l ++ r) ≡ count k l + count k r
    count-append k [] r = ground (arith)
    count-append k ((j, v) ∷ l) r = ground (arith, count-append k l r)

    IsUnique-insert :
        (j : String) (v : V) (l r : List (String × V))
        → matching (λ w. key w == key v) (l ++ r) ≡ []
        → IsUnique (l ++ r)
        → IsUnique (l ++ (j, v) ∷ r)
    unfolding IsUnique
    IsUnique-insert j v l r h u k = elim (Bool-cases (key v == k)) [
      | inl t ↦
          let same : key v ≡ k = ground (arith, t, eq_iff (key v) k) in
          let none : count k (l ++ r) ≡ 0 = ground (arith, same, h) in
          ground (arith, t, none, count-append k l r, count-append k l ((j, v) ∷ r))
      | inr t ↦ ground (arith, t, u k, count-append k l r, count-append k l ((j, v) ∷ r))
    ]

    count-without : (j k : String) (r : List (String × V)) → count k (without j r) ≤ count k r
    count-without j k [] = ground (arith)
    count-without j k ((i, v) ∷ r) = ground (arith, count-without j k r)

    pub IsUnique-without :
        (j : String) (r : List (String × V)) → IsUnique r → IsUnique (without j r)
    unfolding IsUnique
    IsUnique-without j r u k = ground (arith, u k, count-without j k r)

    count-replaced :
        (j k : String) (v : V) (r : List (String × V))
        → All (λ (x : String × V). ((x.0 == j) ≡ false) ⊎ (key x.1 ≡ key v)) r
        → count k (replaced j v r) ≡ count k r
    count-replaced j k v [] h = refl
    count-replaced j k v ((i, w) ∷ r) (inl a, h) = ground (arith, a, count-replaced j k v r h)
    count-replaced j k v ((i, w) ∷ r) (inr a, h) = ground (arith, a, count-replaced j k v r h)

    -- Rows that are replaced by one with their own text.
    pub IsUnique-replaced :
        (j : String) (v : V) (r : List (String × V))
        → All (λ (x : String × V). ((x.0 == j) ≡ false) ⊎ (key x.1 ≡ key v)) r
        → IsUnique r
        → IsUnique (replaced j v r)
    unfolding IsUnique
    IsUnique-replaced j v r h u k = ground (arith, u k, count-replaced j k v r h)

module _ ⦃bolt : Bolthold⦄ where
  open bolt use {Bucket, rows, inserted, inserted_rows}

  -- A new row whose text no row has.
  pub IsUnique-inserted :
      {V : Type 0} (key : V → String) (j : String) (v : V) (b : Bucket V)
      → matching (λ w. key w == key v) (rows V b) ≡ []
      → IsUnique key (rows V b)
      → IsUnique key (rows V (inserted V j v b))
  IsUnique-inserted {V} key j v b h u =
      let (l, r, e, f) = inserted_rows V j v b in
      rw f
        (IsUnique-insert key j v l r (ap (matching (λ w. key w == key v)) (sym e) ∙ h) (rw (← e) u))
