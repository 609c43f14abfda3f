-- ===== src/Manager/Registry/Abstraction.antt =====
-- worker/manager/: the registry that a database stands for, after each change of its rows.
use mathlib.Core.Path.{fun_ext}
use coriolis_snapshot_agent.Common.{
  ◌≤◌, ◌≡◌, refl, sym, ap, ◌∙◌, inl, inr, Bool, not, List, [], ◌∷◌, map, String, Option, none, some,
  ◌==◌, length, select, arith, Bool-cases, eq_iff,
}
use coriolis_snapshot_agent.Bolthold.{Bolthold, matching}
use coriolis_snapshot_agent.Bolthold.Laws.{matching-inserted}
use coriolis_snapshot_agent.Bolthold.Unique.{IsUnique}
use coriolis_snapshot_agent.Bolthold.Changed.{
  matching-inserted_other, matching-replaced_alike, matching-without,
}
use coriolis_snapshot_agent.Db.Models.{TrackedDisk, SnapStoreMapping, SnapStore}
use coriolis_snapshot_agent.Db.Connection.{Database}
use coriolis_snapshot_agent.Manager.Tidy.{IsTidy}
use coriolis_snapshot_agent.Manager.Tidy.Rows.{only_store, All-when}
use coriolis_snapshot_agent.Manager.Registry.{Held, Registry, update, dropped}

abbrev pub first {ℓ} : {A : Type ℓ} → List A → Option A
first [] = none
first (x ∷ xs) = some x

abbrev pub held : SnapStore → Held
held s = record { id = s.snap_store_id; place = s.storage_location.path }

first-select :
    (id : String) (vs : List SnapStore)
    → length vs ≤ 1
    → first (map held (select (λ v. not (v.snap_store_id == id)) vs))
      ≡ dropped id (first (map held vs))
first-select id [] h = refl
first-select id (v ∷ []) h = ground (arith)
first-select id (v ∷ w ∷ vs) h = absurd (ground (arith, h))

module _ ⦃bolt : Bolthold⦄ where
  open bolt use {Bucket, rows, inserted, updated, deleted, updated_rows, deleted_rows}

  abbrev pub mapping_in : Bucket SnapStoreMapping → String → Option String
  mapping_in b k = first (
      map (λ (m : SnapStoreMapping). m.location.path)
        (matching (λ m. m.tracked_disk.tracking_id == k) (rows SnapStoreMapping b)))

  abbrev pub store_in : Bucket SnapStore → String → Option Held
  store_in b k =
      first (map held (matching (λ s. s.tracked_disk.tracking_id == k) (rows SnapStore b)))

  unfoldable pub registry_of : Database → Registry
  registry_of d = record { mapping_of = mapping_in d.mappings; store_of = store_in d.snap_stores }

  pub mapping_in-inserted :
      (id : String) (m : SnapStoreMapping) (b : Bucket SnapStoreMapping)
      → matching
          (λ n. n.tracked_disk.tracking_id == m.tracked_disk.tracking_id)
          (rows SnapStoreMapping b)
        ≡ []
      → mapping_in (inserted SnapStoreMapping id m b)
        ≡ update (mapping_in b) m.tracked_disk.tracking_id m.location.path
  mapping_in-inserted id m b n = fun_ext λ k.
      let p : String → SnapStoreMapping → Bool = λ k n. n.tracked_disk.tracking_id == k in
      elim (Bool-cases (m.tracked_disk.tracking_id == k)) [
        | inl t ↦
            let same : m.tracked_disk.tracking_id ≡ k =
              ground (arith, t, eq_iff m.tracked_disk.tracking_id k) in
            let none_yet : matching (p k) (rows SnapStoreMapping b) ≡ [] =
              ap (λ j. matching (p j) (rows SnapStoreMapping b)) (sym same) ∙ n in
            ground (arith, t, matching-inserted (p k) id m b none_yet t)
        | inr t ↦ ground (arith, t, matching-inserted_other (p k) id m b t)
      ]

  pub store_in-inserted :
      (s : SnapStore) (b : Bucket SnapStore)
      → matching (λ t. t.tracked_disk.tracking_id == s.tracked_disk.tracking_id) (rows SnapStore b)
        ≡ []
      → store_in (inserted SnapStore s.snap_store_id s b)
        ≡ update (store_in b) s.tracked_disk.tracking_id (held s)
  store_in-inserted s b n = fun_ext λ k.
      let p : String → SnapStore → Bool = λ k n. n.tracked_disk.tracking_id == k in
      elim (Bool-cases (s.tracked_disk.tracking_id == k)) [
        | inl t ↦
            let same : s.tracked_disk.tracking_id ≡ k =
              ground (arith, t, eq_iff s.tracked_disk.tracking_id k) in
            let none_yet : matching (p k) (rows SnapStore b) ≡ [] =
              ap (λ j. matching (p j) (rows SnapStore b)) (sym same) ∙ n in
            ground (arith, t, matching-inserted (p k) s.snap_store_id s b none_yet t)
        | inr t ↦ ground (arith, t, matching-inserted_other (p k) s.snap_store_id s b t)
      ]

  module _ (ms : Bucket SnapStoreMapping) (b : Bucket SnapStore) (h : IsTidy ms b) where
    pub store_in-updated :
        (store v : SnapStore) (more : List SnapStore)
        → matching (λ t. t.snap_store_id == store.snap_store_id) (rows SnapStore b) ≡ store ∷ more
        → v.tracked_disk ≡ store.tracked_disk
        → held v ≡ held store
        → store_in (updated SnapStore store.snap_store_id v b) ≡ store_in b
    store_in-updated store v more found disk same = fun_ext λ k.
        let p : SnapStore → Bool = λ s. s.tracked_disk.tracking_id == k in
        let alike =
          All-when (λ s. (p s ≡ p v) × (held s ≡ held v)) store (rows SnapStore b)
            (ap (λ (t : TrackedDisk). t.tracking_id == k) (sym disk), sym same)
            (only_store store more (rows SnapStore b) h.keyed h.own_id found) in
        ap (λ (r : List (String × SnapStore)). first (map held (matching p r)))
          (updated_rows SnapStore store.snap_store_id v b)
        ∙ ap first (matching-replaced_alike held p store.snap_store_id v (rows SnapStore b) alike)

    pub store_in-deleted :
        (id : String) → store_in (deleted SnapStore id b) ≡ (λ k. dropped id (store_in b k))
    unfolding IsUnique
    store_in-deleted id = fun_ext λ k.
        let p : SnapStore → Bool = λ s. s.tracked_disk.tracking_id == k in
        ap (λ (r : List (String × SnapStore)). first (map held (matching p r)))
          (deleted_rows SnapStore id b)
        ∙ ap (λ (vs : List SnapStore). first (map held vs))
            (matching-without (λ (s : SnapStore). s.snap_store_id) p id (rows SnapStore b) h.keyed)
        ∙ first-select id (matching p (rows SnapStore b)) (h.one_store k)
