-- ===== src/Manager/Creation/Release.antt =====
-- worker/manager/manager.go: which kernel resources a failed `CreateSnapshot` gives back.
use mathlib.Core.List.{append_assoc, append-nil}
use coriolis_snapshot_agent.Common.{
  ℕ, ◌≡◌, ap, ◌∙◌, ◌⊎◌, inl, inr, List, [], ◌∷◌, ◌++◌, map, none, some, arith,
}
use coriolis_snapshot_agent.Errors.{Error, wrap}
use coriolis_snapshot_agent.Result.{Result, ok, err, Result-cases}
use coriolis_snapshot_agent.Types.{DevId, CbtInfo, ImageInfo}
use coriolis_snapshot_agent.Bolthold.{Bolthold}
use coriolis_snapshot_agent.Db.Models.{SnapStore, VolumeSnapshot}
use coriolis_snapshot_agent.Manager.{Texts}
use coriolis_snapshot_agent.Manager.Removal.{cleanup_snap_store}
use coriolis_snapshot_agent.Manager.State.{
  View, Agent, Call, Kernel, snapshot_create, snapshot_delete, snap_store_cleanup,
}
use coriolis_snapshot_agent.Manager.Creation.{
  Target, snap_volumes, store_snapshot, after_create, release_stores, try_snapshot, take_snapshot,
}
use coriolis_snapshot_agent.Manager.Creation.Silent.{SameCalls-snap_volumes}

module _ ⦃bolt : Bolthold⦄ (texts : Texts) (kernel : Kernel) where
  -- The clean-up of each store whose id can be parsed.
  unfoldable pub cleanup_calls : List Target → List Call
  cleanup_calls [] = []
  cleanup_calls (t ∷ ts) = elim (texts.uuid_parse t.store.snap_store_id) [
    | ok id ↦ snap_store_cleanup id ∷ cleanup_calls ts
    | err e ↦ cleanup_calls ts
  ]

  one_cleanup :
      (store : SnapStore) (s : Agent)
      → (cleanup_snap_store texts kernel store s).1 ≡ record s {
        calls = s.calls ++ elim (texts.uuid_parse store.snap_store_id) [
          | ok id ↦ snap_store_cleanup id ∷ []
          | err e ↦ []
        ];
      }
  unfolding cleanup_snap_store
  one_cleanup store s = elim (Result-cases (texts.uuid_parse store.snap_store_id)) [
    | inr (e, p) ↦ ground (arith, p, append-nil s.calls)
    | inl (id, p) ↦ elim (Result-cases (kernel.on_cleanup s.calls id)) [
      | inr (e, q) ↦ ground (arith, p, q)
      | inl (none, q) ↦ ground (arith, p, q)
      | inl (some n, q) ↦ ground (arith, p, q)
    ]
  ]

  released :
      (ts : List Target) (s : Agent)
      → (release_stores texts kernel ts s).1 ≡ record s { calls = s.calls ++ cleanup_calls ts }
  unfolding release_stores cleanup_calls
  released [] s = ground (arith, append-nil s.calls)
  released (t ∷ ts) s =
      released ts ((cleanup_snap_store texts kernel t.store s).1)
      ∙ rw (one_cleanup t.store s) (elim (Result-cases (texts.uuid_parse t.store.snap_store_id)) [
        | inl (id, p) ↦
            ground (arith, p, append_assoc s.calls (snap_store_cleanup id ∷ []) (cleanup_calls ts))
        | inr (e, p) ↦ ground (arith, p, append-nil s.calls)
      ])

  module _ (view : View) (targets : List Target) where
    abbrev devices : List DevId
    devices = map (λ (t : Target). t.dev) targets

    -- The agent when the kernel module has been asked for the snapshot.
    abbrev pub asked : Agent → Agent
    asked s = record s { calls = s.calls ++ snapshot_create devices ∷ [] }

    -- The kernel module has made snapshot `number` of the devices.
    pub record IsCreated (s : Agent) (pre : List CbtInfo) (before : List ImageInfo) (number : ℕ)
        : Type 0 where
      pub pre_read : view.cbt_info s.calls ≡ ok pre
      pub before_read : view.images s.calls ≡ ok before
      pub made : kernel.on_create s.calls devices ≡ ok number

    -- What the kernel module then says of its state cannot be read.
    unfoldable pub IsUnreadable : Agent → Error → Type 0
    IsUnreadable s e =
        (view.cbt_info (asked s).calls ≡ err e)
        ⊎ ((post : List CbtInfo) × (view.cbt_info (asked s).calls ≡ ok post)
            × (view.images (asked s).calls ≡ err e))

    try_unreadable :
        (s : Agent) (pre : List CbtInfo) (before : List ImageInfo) (number : ℕ) (e : Error)
        → IsCreated s pre before number
        → IsUnreadable s e
        → try_snapshot texts kernel view targets s
          ≡ (err (wrap e), record s { calls = (asked s).calls ++ snapshot_delete number ∷ [] })
    unfolding try_snapshot after_create IsUnreadable
    try_unreadable s pre before number e h (inl p) =
        ground (arith, h.pre_read, h.before_read, h.made, p)
    try_unreadable s pre before number e h (inr (post, p, q)) =
        ground (arith, h.pre_read, h.before_read, h.made, p, q)

    -- If the state of the kernel module cannot be read after it has made the snapshot, what follows the
    -- making of the snap stores fails, deletes that snapshot and cleans up every snap store whose id
    -- can be parsed, in this order, and leaves the database alone.
    pub unreadable_state_releases :
        (s : Agent) (pre : List CbtInfo) (before : List ImageInfo) (number : ℕ) (e : Error)
        → IsCreated s pre before number
        → IsUnreadable s e
        → take_snapshot texts kernel view targets s ≡ (
          err (wrap e),
          record s {
            calls = ((asked s).calls ++ snapshot_delete number ∷ []) ++ cleanup_calls targets;
          },
        )
    unfolding take_snapshot
    unreadable_state_releases s pre before number e h u = ground (
      arith,
      try_unreadable s pre before number e h u,
      released targets (record s { calls = (asked s).calls ++ snapshot_delete number ∷ [] }),
    )

    try_leaking :
        (s v : Agent) (pre post : List CbtInfo) (before after : List ImageInfo) (number : ℕ)
        (e : Error)
        → IsCreated s pre before number
        → view.cbt_info (asked s).calls ≡ ok post
        → view.images (asked s).calls ≡ ok after
        → snap_volumes texts kernel view targets number pre post before after targets (asked s)
          ≡ (err e, v)
        → try_snapshot texts kernel view targets s ≡ (ok (err e), v)
    unfolding try_snapshot after_create store_snapshot
    try_leaking s v pre post before after number e h p q f =
        ground (arith, h.pre_read, h.before_read, h.made, p, q, f)

    -- If the loop over the devices fails, for whatever reason, `CreateSnapshot` fails with that error
    -- but gives nothing back: no call follows the one that made the snapshot.
    pub loop_failure_leaks :
        (s : Agent) (pre post : List CbtInfo) (before after : List ImageInfo) (number : ℕ)
        (e : Error)
        → IsCreated s pre before number
        → view.cbt_info (asked s).calls ≡ ok post
        → view.images (asked s).calls ≡ ok after
        → (snap_volumes texts kernel view targets number pre post before after targets (asked s)).0
          ≡ err e
        → ((take_snapshot texts kernel view targets s).0 ≡ err e)
          × ((take_snapshot texts kernel view targets s).1.calls
              ≡ s.calls ++ snapshot_create devices ∷ [])
    unfolding take_snapshot
    loop_failure_leaks s pre post before after number e h p q f =
        let run =
          snap_volumes texts kernel view targets number pre post before after targets (asked s) in
        let looped : run ≡ (err e, run.1) =
          ap (λ (r : Result (List VolumeSnapshot)). (r, run.1)) f in
        let tried = try_leaking s (run.1) pre post before after number e h p q looped in
        let same =
          (SameCalls-snap_volumes texts kernel view targets number pre post before after
              targets).step
            (asked s) in
        (ground (arith, tried), ground (arith, tried, same))
