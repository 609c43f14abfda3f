-- ===== src/Manager/Startup/Unwound.antt =====
-- worker/manager/manager.go: what `NewManager` does to the disk.
use coriolis_snapshot_agent.Common.{◌≡◌, inl, inr, true, List, [], ◌∷◌, ◌++◌, String, arith}
use coriolis_snapshot_agent.Errors.{Error, fs_not_exist, this, is}
use coriolis_snapshot_agent.Result.{Result, ok, err, Action, on_error, Result-cases}
use coriolis_snapshot_agent.Bolthold.{Bolthold}
use coriolis_snapshot_agent.Config.{Config, ConfigHost, validate}
use coriolis_snapshot_agent.Manager.{Texts, logged}
use coriolis_snapshot_agent.Manager.State.{Agent, Kernel, View, DiskOp, on_disk, removed_file}
use coriolis_snapshot_agent.Manager.Host.{Host}
use coriolis_snapshot_agent.Manager.Startup.{clean_start, first_start, new_manager}
use coriolis_snapshot_agent.Manager.Startup.Quiet.{SameDisk-bring_up}

removes_last :
    ⦃bolt : Bolthold⦄ {A : Type 0} (m : Action Agent A) (op : DiskOp) (answer : Result (Unit {0}))
    (s t : Agent) (y : Error)
    → on_error (logged (on_disk op answer)) m s ≡ (err y, t)
    → (earlier : List DiskOp) × (t.disk_ops ≡ earlier ++ op ∷ [])
removes_last m op answer s t y h = elim (Result-cases ((m s).0)) [
  | inl (a, e) ↦ absurd (ground (arith, e, h))
  | inr (x, e) ↦ (((m s).1).disk_ops, ground (arith, e, h))
]

module _ ⦃bolt : Bolthold⦄ (host : Host) (config : Config) (texts : Texts) (kernel : Kernel)
    (view : View) (checks : ConfigHost) (open_database : Result (Unit {0}))
    (new_id : String → String) where
  -- When the database file is there, `NewManager` makes, empties and removes no directory and no file,
  -- whatever the configuration, the kernel module and the database answer and whether or not it
  -- succeeds.
  pub new_manager_keeps :
      (s : Agent)
      → (host.outside s.disk_ops).stat config.db_file ≡ ok tt
      → let (r, t) = new_manager host config texts kernel view checks open_database new_id s in
        t.disk_ops ≡ s.disk_ops
  unfolding new_manager
  new_manager_keeps s h = elim (Result-cases (validate checks config)) [
    | inr (x, e) ↦ ground (arith, e)
    | inl (a, e) ↦ elim (Result-cases open_database) [
      | inr (x, f) ↦ ground (arith, e, f, h)
      | inl (b, f) ↦
          ground (arith, e, f, h, (SameDisk-bring_up host config texts kernel view new_id).step s)
    ]
  ]

  -- When the database file was not there and could be made, a `NewManager` that fails asks, as the last
  -- thing, for the new file to be removed, so that the next start is a first start again.
  pub new_manager_unwinds :
      (s t : Agent) (x y : Error)
      → (host.outside s.disk_ops).stat config.db_file ≡ err x
      → is x (this fs_not_exist) ≡ true
      → validate checks config ≡ ok tt
      → open_database ≡ ok tt
      → new_manager host config texts kernel view checks open_database new_id s ≡ (err y, t)
      → (earlier : List DiskOp) × (t.disk_ops ≡ earlier ++ removed_file config.db_file ∷ [])
  unfolding new_manager first_start
  new_manager_unwinds s t x y h k v o f =
      removes_last (clean_start host config texts kernel view new_id) (removed_file config.db_file)
        (host.remove_file config.db_file) s t y (ground (arith, h, k, v, o, f))
