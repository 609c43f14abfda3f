-- ===== src/Bolthold/Laws.antt =====
-- Queries over rows that have changed.
use coriolis_snapshot_agent.Common.{
  All, map, Bool-cases, ◌==◌, false, inl, inr, ◌≡◌, refl, sym, ap, ◌∙◌, Bool, true, List, [], ◌∷◌,
  ◌++◌, String, arith, eq_refl,
}
use coriolis_snapshot_agent.Bolthold.{Bolthold, without}
use coriolis_snapshot_agent.Bolthold.Rows.{matching, replaced, has_key}

module _ {V : Type 0} where
  pub matching-append :
      (p : V → Bool) (l r : List (String × V)) → matching p (l ++ r) ≡ matching p l ++ matching p r
  matching-append p [] r = refl
  matching-append p ((k, v) ∷ l) r = ground (arith, matching-append p l r)

  -- What a query returns passes its test.
  pub matching-head :
      (p : V → Bool) (r : List (String × V)) (v : V) (vs : List V)
      → matching p r ≡ v ∷ vs
      → p v ≡ true
  matching-head p [] v vs h = absurd (cc)
  matching-head p ((k, u) ∷ r) v vs h = elim (Bool-cases (p u)) [
    | inl e ↦ ground (arith, e)
    | inr e ↦ matching-head p r v vs (ground (arith, e))
  ]

  module _ (key : V → String) (id : String) where
    -- The rows whose value has the key `id`.
    abbrev pub with_id : V → Bool
    with_id v = key v == id

    -- The rows are stored under the keys of their values.
    abbrev pub IsKeyed : List (String × V) → Type 0
    IsKeyed = All (λ (r : String × V). r.0 ≡ key r.1)

    -- Replacing the rows with the key of a value replaces all that the query by this key finds.
    pub matching-replaced :
        (v : V) (r : List (String × V))
        → IsKeyed r
        → with_id v ≡ true
        → matching with_id (replaced id v r) ≡ map (λ w. v) (matching with_id r)
    matching-replaced v [] h e = refl
    matching-replaced v ((k, w) ∷ r) (hk, h) e = elim (Bool-cases (k == id)) [
      | inl t ↦
          let own : with_id w ≡ true = ap (λ (j : String). j == id) (sym hk) ∙ t in
          ground (arith, t, own, e, matching-replaced v r h e)
      | inr t ↦
          let own : with_id w ≡ false = ap (λ (j : String). j == id) (sym hk) ∙ t in
          ground (arith, t, own, e, matching-replaced v r h e)
    ]

    pub has_key-matching :
        (r : List (String × V)) (v : V) (vs : List V)
        → IsKeyed r
        → matching with_id r ≡ v ∷ vs
        → has_key id r ≡ true
    has_key-matching [] v vs h e = absurd (cc)
    has_key-matching ((k, w) ∷ r) v vs (hk, h) e = elim (Bool-cases (k == id)) [
      | inl t ↦ ground (arith, t)
      | inr t ↦
          let own : with_id w ≡ false = ap (λ (j : String). j == id) (sym hk) ∙ t in
          ground (arith, t, has_key-matching r v vs h (ground (arith, own, e)))
    ]

  pub append-empty : (xs ys : List V) → xs ++ ys ≡ [] → (xs ≡ []) × (ys ≡ [])
  append-empty [] ys h = (refl, h)
  append-empty (x ∷ xs) ys h = absurd (cc)

module _ {V : Type 0} (id : String) where
  without-free : (r : List (String × V)) → has_key id r ≡ false → without id r ≡ r
  without-free [] h = refl
  without-free ((k, v) ∷ r) h = ground (arith, h, without-free r (ground (arith, h)))

  -- A key that was free and got a row is taken, and without this row the rows are those before.
  without-append :
      (v : V) (l r : List (String × V))
      → has_key id (l ++ r) ≡ false
      → (has_key id (l ++ (id, v) ∷ r) ≡ true) × (without id (l ++ (id, v) ∷ r) ≡ l ++ r)
  without-append v [] r h = ground (arith, h, eq_refl id, without-free r h)
  without-append v ((k, w) ∷ l) r h = ground (arith, h, without-append v l r (ground (arith, h)))

module _ ⦃bolt : Bolthold⦄ where
  open bolt use {Bucket, rows, inserted, inserted_rows, deleted, deleted_rows}

  -- A row that is the first to match is the only one that does.
  pub matching-inserted :
      {V : Type 0} (p : V → Bool) (k : String) (v : V) (b : Bucket V)
      → matching p (rows V b) ≡ []
      → p v ≡ true
      → matching p (rows V (inserted V k v b)) ≡ v ∷ []
  matching-inserted {V} p k v b h t =
      let (l, r, e, f) = inserted_rows V k v b in
      let split : matching p l ++ matching p r ≡ [] =
        sym (matching-append p l r) ∙ ap (matching p) (sym e) ∙ h in
      let (hl, hr) = append-empty (matching p l) (matching p r) split in
      ground (arith, f, hl, hr, t, matching-append p l ((k, v) ∷ r))

  pub deleted-inserted :
      {V : Type 0} (k : String) (v : V) (b : Bucket V)
      → has_key k (rows V b) ≡ false
      → (has_key k (rows V (inserted V k v b)) ≡ true)
        × (rows V (deleted V k (inserted V k v b)) ≡ rows V b)
  deleted-inserted {V} k v b h =
      let (l, r, e, f) = inserted_rows V k v b in
      let (held, left) = without-append k v l r (ap (has_key k) (sym e) ∙ h) in
      (
        ap (has_key k) f ∙ held,
        deleted_rows V k (inserted V k v b) ∙ ap (without k) f ∙ left ∙ sym e,
      )
