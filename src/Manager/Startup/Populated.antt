-- ===== src/Manager/Startup/Populated.antt =====
-- worker/manager/initialization.go: after `PopulateSnapStoreWatcher` every snap store has a watcher.
use mathlib.Core.Path.{subst}
use coriolis_snapshot_agent.Common.{
  ℕ, ◌≡◌, inl, inr, true, false, List, [], ◌∷◌, String, ◌==◌, eq_refl, eq_iff, arith, All,
  Bool-cases, ap, sym, ◌∙◌,
}
use coriolis_snapshot_agent.Result.{ok, Result-cases}
use coriolis_snapshot_agent.Bolthold.{Bolthold, matching}
use coriolis_snapshot_agent.Config.{Config}
use coriolis_snapshot_agent.Watcher.{Watcher}
use coriolis_snapshot_agent.Watcher.Start.{new_watcher}
use coriolis_snapshot_agent.Db.Models.{SnapStore}
use coriolis_snapshot_agent.Manager.{Texts}
use coriolis_snapshot_agent.Manager.State.{Agent, unwatched, watcher_at}
use coriolis_snapshot_agent.Manager.Host.{Host}
use coriolis_snapshot_agent.Manager.Stores.{watcher_params, watch_store}
use coriolis_snapshot_agent.Manager.Startup.{watch_stores, populate_watchers}

-- A watcher is recorded under the id.
abbrev pub IsWatched : String → List (String × Watcher) → Type 0
IsWatched id ws = (w : Watcher) × (watcher_at id ws ≡ ok w)

watcher_at-unwatched :
    (id key : String) (ws : List (String × Watcher)) (w : Watcher)
    → key == id ≡ false
    → watcher_at id ws ≡ ok w
    → watcher_at id (unwatched key ws) ≡ ok w
watcher_at-unwatched id key [] w h e = absurd (cc (e))
watcher_at-unwatched id key ((k, v) ∷ ws) w h e = elim (Bool-cases (k == key)) [
  | inl t ↦
      let other : k == id ≡ false = ap (λ (x : String). x == id) ((eq_iff k key).0 t) ∙ h in
      ground (arith, t, watcher_at-unwatched id key ws w h (ground (arith, other, e)))
  | inr t ↦ elim (Bool-cases (k == id)) [
    | inl u ↦ ground (arith, t, u, e)
    | inr u ↦ ground (arith, t, u, watcher_at-unwatched id key ws w h (ground (arith, u, e)))
  ]
]

-- Recording a watcher leaves no store without one.
IsWatched-recorded :
    (id key : String) (ws : List (String × Watcher)) (v : Watcher)
    → IsWatched id ws
    → IsWatched id ((key, v) ∷ unwatched key ws)
IsWatched-recorded id key ws v (w, e) = elim (Bool-cases (key == id)) [
  | inl t ↦ (v, ground (arith, t))
  | inr t ↦ (w, ground (arith, t, watcher_at-unwatched id key ws w t e))
]

module _ ⦃bolt : Bolthold⦄ (host : Host) (config : Config) (texts : Texts) where
  open bolt use {rows, find_lem}

  abbrev pub AllWatched : List SnapStore → Agent → Type 0
  AllWatched stores t = All (λ (store : SnapStore). IsWatched store.snap_store_id t.watchers) stores

  watched_one :
      (id : List ℕ) (store : SnapStore) (s t : Agent)
      → watch_store host config texts id store s ≡ (ok tt, t)
      → (v : Watcher) × (t.watchers
          ≡ (store.snap_store_id, v) ∷ unwatched store.snap_store_id s.watchers)
  unfolding watch_store
  watched_one id store s t h =
      elim (Result-cases (
        new_watcher host.open_device (host.outside s.disk_ops)
          (watcher_params host config texts id store))) [
            | inl (v, e) ↦ (v, ground (arith, e, h))
            | inr (x, e) ↦ absurd (ground (arith, e, h))
          ]

  -- What is watched stays so while the others get their watchers.
  still-IsWatched :
      (id : String) (stores : List SnapStore) (s t : Agent)
      → IsWatched id s.watchers
      → watch_stores host config texts stores s ≡ (ok tt, t)
      → IsWatched id t.watchers
  unfolding watch_stores
  still-IsWatched id [] s t w h =
      let same : s ≡ t = cc (h) in subst (λ (u : Agent). IsWatched id u.watchers) same w
  still-IsWatched id (store ∷ stores) s t w h =
      elim (Result-cases (texts.uuid_parse store.snap_store_id)) [
        | inr (x, e) ↦ absurd (ground (arith, e, h))
        | inl (key, e) ↦ elim (Result-cases ((watch_store host config texts key store s).0)) [
          | inr (x, f) ↦ absurd (ground (arith, e, f, h))
          | inl (done, f) ↦
              let u = (watch_store host config texts key store s).1 in
              let (v, g) = watched_one key store s u (ground (arith, f)) in
              still-IsWatched id stores u t
                (subst (IsWatched id) (sym g)
                  (IsWatched-recorded id store.snap_store_id s.watchers v w))
                (ground (arith, e, f, h))
        ]
      ]

  watch_stores-AllWatched :
      (stores : List SnapStore) (s t : Agent)
      → watch_stores host config texts stores s ≡ (ok tt, t)
      → AllWatched stores t
  unfolding watch_stores
  watch_stores-AllWatched [] s t h = tt
  watch_stores-AllWatched (store ∷ stores) s t h =
      elim (Result-cases (texts.uuid_parse store.snap_store_id)) [
        | inr (x, e) ↦ absurd (ground (arith, e, h))
        | inl (key, e) ↦ elim (Result-cases ((watch_store host config texts key store s).0)) [
          | inr (x, f) ↦ absurd (ground (arith, e, f, h))
          | inl (done, f) ↦
              let u = (watch_store host config texts key store s).1 in
              let rest : watch_stores host config texts stores u ≡ (ok tt, t) =
                ground (arith, e, f, h) in
              let (v, g) = watched_one key store s u (ground (arith, f)) in
              let own : IsWatched store.snap_store_id u.watchers =
                (v, ground (arith, g, eq_refl store.snap_store_id)) in
              (
                still-IsWatched store.snap_store_id stores u t own rest,
                watch_stores-AllWatched stores u t rest,
              )
        ]
      ]

  -- When `PopulateSnapStoreWatcher` succeeds, every snap store of the database has a watcher, recorded
  -- under the id of the store.
  pub populate_watchers-AllWatched :
      (s t : Agent)
      → populate_watchers host config texts s ≡ (ok tt, t)
      → AllWatched (matching (λ store. true) (rows SnapStore s.db.snap_stores)) t
  unfolding populate_watchers
  populate_watchers-AllWatched s t h =
      watch_stores-AllWatched (matching (λ store. true) (rows SnapStore s.db.snap_stores)) s t
        (ground (arith, find_lem SnapStore (λ store. true) s.db.snap_stores, h))
