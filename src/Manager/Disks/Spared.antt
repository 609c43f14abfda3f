-- ===== src/Manager/Disks/Spared.antt =====
-- worker/manager/manager.go: the devices on the configuration's list are not tracked, and a disk that is
-- added is tracked by the kernel module.
use mathlib.Core.Path.{subst}
use coriolis_snapshot_agent.Common.{
  ◌≡◌, ◌⊎◌, inl, inr, Bool, true, false, not, ◌||◌, List, [], ◌∷◌, ◌++◌, String, ◌==◌, eq_iff, any,
  All, select, arith, Bool-cases, ap, ◌∙◌,
}
use coriolis_snapshot_agent.Errors.{Error, typed, not_found, wrap}
use coriolis_snapshot_agent.Result.{ok, err, Result-cases}
use coriolis_snapshot_agent.Bolthold.{Bolthold}
use coriolis_snapshot_agent.Config.{Config}
use coriolis_snapshot_agent.Storage.{BlockVolume}
use coriolis_snapshot_agent.Storage.Files.{list_block_devices}
use coriolis_snapshot_agent.Manager.{Texts}
use coriolis_snapshot_agent.Manager.State.{Agent, Kernel, View, tracking_add}
use coriolis_snapshot_agent.Manager.Host.{Host}
use coriolis_snapshot_agent.Manager.Disks.{
  DiskInfo, is_excluded, device_is_tracked, list_disks, volume_at, find_disk_by_path,
  ensure_tracking, add_tracked_disk, CbtInfo,
}

any-weaken :
    (p q : String → Bool) (cs : List String) → any p cs ≡ true → any (λ c. p c || q c) cs ≡ true
any-weaken p q [] h = absurd (cc (h))
any-weaken p q (c ∷ cs) h = elim (Bool-cases (p c)) [
  | inl e ↦ ground (arith, e)
  | inr e ↦ ground (arith, e, any-weaken p q cs (ground (arith, e)))
]

excluded_at :
    (cow : List String) (path : String) (v : BlockVolume)
    → any (λ c. c == path) cow ≡ true
    → (v.path == path) ≡ true
    → is_excluded cow v ≡ true
excluded_at cow path v h e =
    let same : v.path ≡ path = (eq_iff v.path path).0 e in
    any-weaken (λ c. c == v.path) (λ c. any (λ p. p.path == c) v.partitions) cow
      (ap (λ (x : String). any (λ c. c == x) cow) same ∙ h)

-- No listed device is the volume or one of its partitions.
abbrev pub IsSpared : List String → BlockVolume → Type 0
IsSpared cow v =
    All (λ c. ((c == v.path) ≡ false) × (any (λ p. p.path == c) v.partitions ≡ false)) cow

is_excluded-IsSpared :
    (cow : List String) (v : BlockVolume) → is_excluded cow v ≡ false → IsSpared cow v
is_excluded-IsSpared [] v h = tt
is_excluded-IsSpared (c ∷ cs) v h =
    ((ground (arith), ground (arith)), is_excluded-IsSpared cs v (ground (arith)))

module _ (host : Host) (config : Config) where
  abbrev spared : List BlockVolume → List BlockVolume
  spared = select (λ v. not (is_excluded config.cow_destination_device_paths v))

  volume_at-spared :
      (path : String)
      → any (λ c. c == path) config.cow_destination_device_paths ≡ true
      → (vs : List BlockVolume) → volume_at path (spared vs) ≡ err (typed not_found)
  volume_at-spared path h [] = ground (arith)
  volume_at-spared path h (v ∷ vs) =
      elim (Bool-cases (is_excluded config.cow_destination_device_paths v)) [
        | inl e ↦ ground (arith, e, volume_at-spared path h vs)
        | inr e ↦ elim (Bool-cases (v.path == path)) [
          | inl t ↦
              absurd (ground (arith, e, excluded_at config.cow_destination_device_paths path v h t))
          | inr t ↦ ground (arith, e, t, volume_at-spared path h vs)
        ]
      ]

  -- The path that was asked for, and neither it nor that of a partition among the excluded devices.
  abbrev pub Fits : String → BlockVolume → Type 0
  Fits path v = (v.path == path ≡ true) × IsSpared config.cow_destination_device_paths v

  volume_at-found :
      (path : String) (vs : List BlockVolume) (v : BlockVolume)
      → volume_at path (spared vs) ≡ ok v
      → Fits path v
  volume_at-found path [] v h = absurd (cc (h))
  volume_at-found path (u ∷ vs) v h =
      elim (Bool-cases (is_excluded config.cow_destination_device_paths u)) [
        | inl e ↦ volume_at-found path vs v (ground (arith, e))
        | inr e ↦ elim (Bool-cases (u.path == path)) [
          | inl t ↦
              let same : u ≡ v = ground (arith, e, t) in
              subst (Fits path) same
                (t, is_excluded-IsSpared config.cow_destination_device_paths u e)
          | inr t ↦ volume_at-found path vs v (ground (arith, e, t))
        ]
      ]

  find_disk_by_path-refused :
      (path : String)
      → any (λ c. c == path) config.cow_destination_device_paths ≡ true
      → (e : Error) × (find_disk_by_path host config path ≡ err e)
  unfolding find_disk_by_path list_disks
  find_disk_by_path-refused path h =
      elim (Result-cases (list_block_devices false true true host.sys_block)) [
        | inl (devices, e) ↦ (typed not_found, ground (arith, e, volume_at-spared path h devices))
        | inr (x, e) ↦ (wrap (wrap x), ground (arith, e))
      ]

  find_disk_by_path-Fits :
      (path : String) (v : BlockVolume) → find_disk_by_path host config path ≡ ok v → Fits path v
  unfolding find_disk_by_path list_disks
  find_disk_by_path-Fits path v h =
      elim (Result-cases (list_block_devices false true true host.sys_block)) [
        | inl (devices, e) ↦ volume_at-found path devices v (ground (arith, e, h))
        | inr (x, e) ↦ absurd (ground (arith, e, h))
      ]

  module _ ⦃bolt : Bolthold⦄ (texts : Texts) (kernel : Kernel) (view : View) where
    -- A device on the configuration's list of destination devices is never added to tracking: the call
    -- fails and changes neither the database nor the kernel module.
    pub add_tracked_disk_refused :
        (path : String) (s : Agent)
        → any (λ c. c == path) config.cow_destination_device_paths ≡ true
        → (e : Error) × (add_tracked_disk host config texts kernel view path s ≡ (err e, s))
    unfolding add_tracked_disk
    add_tracked_disk_refused path s h =
        let (e, found) = find_disk_by_path-refused path h in (wrap e, ground (arith, found))

    abbrev pub IsTracked : BlockVolume → Agent → Agent → Type 0
    IsTracked v s t =
        ((infos : List CbtInfo) × (view.cbt_info s.calls ≡ ok infos)
          × (device_is_tracked v.major v.minor infos ≡ true)
          × (t.calls ≡ s.calls))
        ⊎ ((kernel.on_add s.calls (record { major = v.major; minor = v.minor }) ≡ ok tt)
            × (t.calls
                ≡ s.calls ++ tracking_add (record { major = v.major; minor = v.minor }) ∷ []))

    -- When `AddTrackedDisk` succeeds, the disk has the path of the request, neither it nor one of its
    -- partitions is in the configuration's list of destination devices, and the kernel module either
    -- said that it tracks the device with a bitmap that is not empty, or was asked once to track it and
    -- did. The list is what `ParseConfig` made of it, which may miss a disk by its second partition.
    pub add_tracked_disk_tracks :
        (path : String) (s t : Agent) (info : DiskInfo)
        → add_tracked_disk host config texts kernel view path s ≡ (ok info, t)
        → Fits path info.volume × IsTracked info.volume s t
    unfolding add_tracked_disk ensure_tracking
    add_tracked_disk_tracks path s t info h =
        elim (Result-cases (find_disk_by_path host config path)) [
          | inr (x, e) ↦ absurd (ground (arith, e, h))
          | inl (v, e) ↦ elim (Result-cases (view.cbt_info s.calls)) [
            | inr (x, e1) ↦ absurd (ground (arith, e, e1, h))
            | inl (infos, e1) ↦
                let same : v ≡ info.volume = ground (arith, e, e1, h) in
                let tracked : IsTracked v s t =
                  elim (Bool-cases (device_is_tracked v.major v.minor infos)) [
                    | inl e2 ↦ inl (infos, e1, e2, ground (arith, e, e1, e2, h))
                    | inr e2 ↦ inr (ground (arith, e, e1, e2, h), ground (arith, e, e1, e2, h))
                  ] in
                subst (λ (w : BlockVolume). Fits path w × IsTracked w s t) same
                  (find_disk_by_path-Fits path v e, tracked)
          ]
        ]
