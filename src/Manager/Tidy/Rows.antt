-- ===== src/Manager/Tidy/Rows.antt =====
-- What an insertion, an update and a deletion do to the order of the rows.
use coriolis_snapshot_agent.Common.{
  ◌≡◌, refl, sym, ◌⊎◌, inl, inr, false, List, [], ◌∷◌, ◌++◌, String, ◌==◌, All, arith, Bool-cases,
  eq_iff,
}
use coriolis_snapshot_agent.Bolthold.{Bolthold, matching, replaced, without, has_key}
use coriolis_snapshot_agent.Bolthold.Unique.{
  IsUnique, IsUnique-inserted, IsUnique-without, IsUnique-replaced, sole,
}
use coriolis_snapshot_agent.Db.Models.{SnapStoreMapping, SnapStore}
use coriolis_snapshot_agent.Manager.Tidy.{IsTidy}

module _ {V : Type 0} (P : String × V → Type 0) where
  pub All-insert :
      (x : String × V) (l r : List (String × V)) → P x → All P (l ++ r) → All P (l ++ x ∷ r)
  All-insert x [] r p h = (p, h)
  All-insert x (y ∷ l) r p (q, h) = (q, All-insert x l r p h)

  pub All-without : (k : String) (r : List (String × V)) → All P r → All P (without k r)
  All-without k [] h = tt
  All-without k ((j, v) ∷ r) (p, h) = elim (Bool-cases (j == k)) [
    | inl t ↦ rw t (All-without k r h)
    | inr t ↦ rw t (p, All-without k r h)
  ]

  pub All-replaced :
      (k : String) (v : V) (r : List (String × V)) → P (k, v) → All P r → All P (replaced k v r)
  All-replaced k v [] p h = tt
  All-replaced k v ((j, w) ∷ r) p (q, h) = elim (Bool-cases (j == k)) [
    | inl t ↦
        let same : j ≡ k = ground (arith, t, eq_iff j k) in rw t (rw same p, All-replaced k v r p h)
    | inr t ↦ rw t (q, All-replaced k v r p h)
  ]

abbrev IsKeyed : List (String × SnapStore) → Type 0
IsKeyed = All (λ (r : String × SnapStore). r.0 ≡ r.1.snap_store_id)

-- An id that is no key is the id of no row.
unused :
    (id : String) (r : List (String × SnapStore))
    → IsKeyed r
    → has_key id r ≡ false
    → matching (λ s. s.snap_store_id == id) r ≡ []
unused id [] h f = refl
unused id ((k, s) ∷ r) (e, h) f = ground (arith, e, f, unused id r h (ground (arith, f)))

under_keys :
    (store : SnapStore) (r : List (String × SnapStore))
    → IsKeyed r
    → All
        (λ (x : String × SnapStore).
          ((x.1.snap_store_id == store.snap_store_id) ≡ false) ⊎ (x.1 ≡ store))
        r
    → All (λ (x : String × SnapStore). ((x.0 == store.snap_store_id) ≡ false) ⊎ (x.1 ≡ store)) r
under_keys store [] h a = tt
under_keys store ((k, s) ∷ r) (e, h) (inl f, a) = (inl (rw e f), under_keys store r h a)
under_keys store ((k, s) ∷ r) (e, h) (inr f, a) = (inr f, under_keys store r h a)

-- What stands under the id of the store that was found is this store.
pub only_store :
    (store : SnapStore) (more : List SnapStore) (r : List (String × SnapStore))
    → IsKeyed r
    → IsUnique (λ (s : SnapStore). s.snap_store_id) r
    → matching (λ t. t.snap_store_id == store.snap_store_id) r ≡ store ∷ more
    → All (λ (x : String × SnapStore). ((x.0 == store.snap_store_id) ≡ false) ⊎ (x.1 ≡ store)) r
unfolding IsUnique
only_store store more r h u e = under_keys store r h (
    sole (λ (t : SnapStore). t.snap_store_id == store.snap_store_id) r store more e
      (u store.snap_store_id))

-- What holds for this store holds for all that stands under its id.
pub All-when :
    (Q : SnapStore → Type 0) (store : SnapStore) (r : List (String × SnapStore))
    → Q store
    → All (λ (x : String × SnapStore). ((x.0 == store.snap_store_id) ≡ false) ⊎ (x.1 ≡ store)) r
    → All (λ (x : String × SnapStore). ((x.0 == store.snap_store_id) ≡ false) ⊎ Q x.1) r
All-when Q store [] q h = tt
All-when Q store ((k, s) ∷ r) q (inl a, h) = (inl a, All-when Q store r q h)
All-when Q store ((k, s) ∷ r) q (inr a, h) = (inr (rw a q), All-when Q store r q h)

module _ ⦃bolt : Bolthold⦄ where
  open bolt use {
    Bucket, rows, inserted, updated, deleted, inserted_rows, updated_rows, deleted_rows,
  }

  module _ (ms : Bucket SnapStoreMapping) (ss : Bucket SnapStore) where
    pub mapped-IsTidy :
        (id : String) (m : SnapStoreMapping)
        → matching
            (λ n. n.tracked_disk.tracking_id == m.tracked_disk.tracking_id)
            (rows SnapStoreMapping ms)
          ≡ []
        → IsTidy ms ss
        → IsTidy (inserted SnapStoreMapping id m ms) ss
    mapped-IsTidy id m none h = record {
      one_mapping =
          IsUnique-inserted (λ (n : SnapStoreMapping). n.tracked_disk.tracking_id) id m ms none
            h.one_mapping;
      one_store = h.one_store;
      own_id = h.own_id;
      keyed = h.keyed;
    }

    pub stored-IsTidy :
        (s : SnapStore)
        → matching
            (λ t. t.tracked_disk.tracking_id == s.tracked_disk.tracking_id)
            (rows SnapStore ss)
          ≡ []
        → has_key s.snap_store_id (rows SnapStore ss) ≡ false
        → IsTidy ms ss
        → IsTidy ms (inserted SnapStore s.snap_store_id s ss)
    stored-IsTidy s none free h =
        let (l, r, e, f) = inserted_rows SnapStore s.snap_store_id s ss in
        record {
          one_mapping = h.one_mapping;
          one_store =
              IsUnique-inserted (λ (t : SnapStore). t.tracked_disk.tracking_id) s.snap_store_id s ss
                none h.one_store;
          own_id =
              IsUnique-inserted (λ (t : SnapStore). t.snap_store_id) s.snap_store_id s ss
                (unused s.snap_store_id (rows SnapStore ss) h.keyed free) h.own_id;
          keyed = rw f (All-insert _ (s.snap_store_id, s) l r refl (rw (← e) h.keyed));
        }

    pub updated-IsTidy :
        (store v : SnapStore) (more : List SnapStore)
        → matching (λ t. t.snap_store_id == store.snap_store_id) (rows SnapStore ss) ≡ store ∷ more
        → v.snap_store_id ≡ store.snap_store_id
        → v.tracked_disk ≡ store.tracked_disk
        → IsTidy ms ss
        → IsTidy ms (updated SnapStore store.snap_store_id v ss)
    unfolding IsUnique
    updated-IsTidy store v more found id disk h =
        let only = only_store store more (rows SnapStore ss) h.keyed h.own_id found in
        let disks =
          All-when (λ s. s.tracked_disk.tracking_id ≡ v.tracked_disk.tracking_id) store
            (rows SnapStore ss) (rw disk refl) only in
        let ids =
          All-when (λ s. s.snap_store_id ≡ v.snap_store_id) store (rows SnapStore ss) (sym id)
            only in
        let e = updated_rows SnapStore store.snap_store_id v ss in
        record {
          one_mapping = h.one_mapping;
          one_store = rw e (
              IsUnique-replaced (λ (t : SnapStore). t.tracked_disk.tracking_id) store.snap_store_id
                v (rows SnapStore ss) disks h.one_store);
          own_id = rw e (
              IsUnique-replaced (λ (t : SnapStore). t.snap_store_id) store.snap_store_id v
                (rows SnapStore ss) ids h.own_id);
          keyed = rw e (All-replaced _ store.snap_store_id v (rows SnapStore ss) (sym id) h.keyed);
        }

    pub deleted-IsTidy : (id : String) → IsTidy ms ss → IsTidy ms (deleted SnapStore id ss)
    deleted-IsTidy id h =
        let e = deleted_rows SnapStore id ss in
        record {
          one_mapping = h.one_mapping;
          one_store = rw e (IsUnique-without _ id (rows SnapStore ss) h.one_store);
          own_id = rw e (IsUnique-without _ id (rows SnapStore ss) h.own_id);
          keyed = rw e (All-without _ id (rows SnapStore ss) h.keyed);
        }
