-- ===== src/Bolthold/Calls.antt =====
-- The ways in which a call of the store can end.
use coriolis_snapshot_agent.Common.{
  ◌≡◌, refl, ◌⊎◌, inl, inr, Bool, false, List, [], ◌∷◌, String, arith, Bool-cases,
}
use coriolis_snapshot_agent.Errors.{Error, plain, sentinel, bolt_not_found, bolt_key_exists}
use coriolis_snapshot_agent.Result.{ok, err}
use coriolis_snapshot_agent.Bolthold.{Bolthold}
use coriolis_snapshot_agent.Bolthold.Rows.{matching, has_key}

List-cases : {V : Type 0} (vs : List V) → (vs ≡ []) ⊎ ((w : V) × (ws : List V) × (vs ≡ w ∷ ws))
List-cases [] = inl refl
List-cases (v ∷ vs) = inr (v, vs, refl)

module _ ⦃bolt : Bolthold⦄ {V : Type 0} where
  open bolt use {
    Bucket, rows, faulty, find_one, insert, update, delete, inserted, updated, deleted,
    find_one_lem, insert_lem, update_lem, delete_lem,
  }

  -- How `FindOne` ends: with the first row that matches, with `ErrNotFound` if none does, or with
  -- another error.
  pub data Finds (p : V → Bool) (b : Bucket V) : Type 0 where
    broken : find_one V p b ≡ err plain → Finds p b
    missing :
        matching p (rows V b) ≡ [] → find_one V p b ≡ err (sentinel bolt_not_found) → Finds p b
    found :
        (v : V) (vs : List V) → matching p (rows V b) ≡ v ∷ vs → find_one V p b ≡ ok v → Finds p b

  pub finds : (p : V → Bool) (b : Bucket V) → Finds p b
  finds p b = elim (Bool-cases (faulty V b)) [
    | inl t ↦ broken (ground (arith, find_one_lem V p b, t))
    | inr t ↦ elim (List-cases (matching p (rows V b))) [
      | inl e ↦ missing e (ground (arith, find_one_lem V p b, t, e))
      | inr (v, vs, e) ↦ found v vs e (ground (arith, find_one_lem V p b, t, e))
    ]
  ]

  pub inserts :
      (k : String) (v : V) (b : Bucket V)
      → ((e : Error) × (insert V k v b ≡ err e))
        ⊎ ((has_key k (rows V b) ≡ false) × (insert V k v b ≡ ok (inserted V k v b)))
  inserts k v b = elim (Bool-cases (faulty V b)) [
    | inl t ↦ inl (plain, ground (arith, insert_lem V k v b, t))
    | inr t ↦ elim (Bool-cases (has_key k (rows V b))) [
      | inl h ↦ inl (sentinel bolt_key_exists, ground (arith, insert_lem V k v b, t, h))
      | inr h ↦ inr (h, ground (arith, insert_lem V k v b, t, h))
    ]
  ]

  pub updates :
      (k : String) (v : V) (b : Bucket V)
      → ((e : Error) × (update V k v b ≡ err e)) ⊎ (update V k v b ≡ ok (updated V k v b))
  updates k v b = elim (Bool-cases (faulty V b)) [
    | inl t ↦ inl (plain, ground (arith, update_lem V k v b, t))
    | inr t ↦ elim (Bool-cases (has_key k (rows V b))) [
      | inl h ↦ inr (ground (arith, update_lem V k v b, t, h))
      | inr h ↦ inl (sentinel bolt_not_found, ground (arith, update_lem V k v b, t, h))
    ]
  ]

  pub deletes :
      (k : String) (b : Bucket V)
      → ((e : Error) × (delete V k b ≡ err e)) ⊎ (delete V k b ≡ ok (deleted V k b))
  deletes k b = elim (Bool-cases (faulty V b)) [
    | inl t ↦ inl (plain, ground (arith, delete_lem V k b, t))
    | inr t ↦ elim (Bool-cases (has_key k (rows V b))) [
      | inl h ↦ inr (ground (arith, delete_lem V k b, t, h))
      | inr h ↦ inl (sentinel bolt_not_found, ground (arith, delete_lem V k b, t, h))
    ]
  ]
