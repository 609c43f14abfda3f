-- ===== src/Manager/Volumes/Found.antt =====
-- worker/manager/manager.go: what the searches of the manager find.
use coriolis_snapshot_agent.Common.{
  ◌≡◌, refl, sym, ap, ◌∙◌, ◌⊎◌, inl, inr, Bool, true, false, not, ◌&&◌, List, [], ◌∷◌, String,
  Option, none, some, ◌==◌, any, select, arith, Bool-cases, eq_iff, ◌++◌, if◌then◌else◌,
}
use coriolis_snapshot_agent.Errors.{typed, not_found}
use coriolis_snapshot_agent.Result.{ok, err}
use coriolis_snapshot_agent.Types.{DevId, ImageInfo, dev_eq, dev_eq→eq}
use coriolis_snapshot_agent.Bolthold.{Bolthold, matching}
use coriolis_snapshot_agent.Db.Models.{Snapshot, VolumeSnapshot}
use coriolis_snapshot_agent.Db.Connection.{Database}
use coriolis_snapshot_agent.Manager.Volumes.{
  new_images, only, new_image, last_for_disk, find_volume_snapshot_for_disk,
}

-- The two images have the same devices.
abbrev pub image_eq : ImageInfo → ImageInfo → Bool
image_eq i j =
    dev_eq i.original_dev_id j.original_dev_id && dev_eq i.snapshot_dev_id j.snapshot_dev_id

-- An image of the device with the same snapshot device.
abbrev pub known : DevId → List ImageInfo → ImageInfo → Bool
known dev before i =
    any
      (λ (pre : ImageInfo).
        dev_eq pre.original_dev_id dev && dev_eq i.snapshot_dev_id pre.snapshot_dev_id)
      before

module _ (dev : DevId) (before : List ImageInfo) where
  -- The loops are a filter.
  new_images-select :
      (after : List ImageInfo)
      → new_images dev before after
        ≡ select (λ i. dev_eq i.original_dev_id dev && not (known dev before i)) after
  unfolding new_images
  new_images-select [] = refl
  new_images-select (i ∷ images) = ground (arith, new_images-select images)

  only_ok : (images : List ImageInfo) (i : ImageInfo) → only images ≡ ok i → images ≡ i ∷ []
  only_ok [] i h = absurd (cc (h))
  only_ok (j ∷ []) i h = let same : j ≡ i = cc (h) in rw same refl
  only_ok (j ∷ k ∷ images) i h = absurd (cc (h))

  image_eq_refl : (i : ImageInfo) → image_eq i i ≡ true
  image_eq_refl i = ground arith

  selected :
      (p : ImageInfo → Bool) (images rest : List ImageInfo) (i : ImageInfo)
      → select p images ≡ i ∷ rest
      → (p i ≡ true) × (any (image_eq i) images ≡ true)
  selected p [] rest i h = absurd (cc)
  selected p (j ∷ images) rest i h = elim (Bool-cases (p j)) [
    | inl e ↦
        let both : j ∷ select p images ≡ i ∷ rest = ground (arith, e, h) in
        let same : j ≡ i = cc (both) in (cc (same, e), rw same (ground (arith, image_eq_refl i)))
    | inr e ↦
        let later = selected p images rest i (ground (arith, e, h)) in
        (later.0, ground (arith, later.1))
  ]

-- The image that `CreateSnapshot` takes for that of its new snapshot is an image of the device, is
-- among those that the kernel module lists afterwards, was not known before, and is the only one of
-- which all this holds.
pub new_image_is_new :
    (dev : DevId) (before after : List ImageInfo) (i : ImageInfo)
    → new_image dev before after ≡ ok i
    → (i.original_dev_id ≡ dev)
      × (known dev before i ≡ false)
      × (any (image_eq i) after ≡ true)
      × (select (λ j. dev_eq j.original_dev_id dev && not (known dev before j)) after ≡ i ∷ [])
unfolding new_image
new_image_is_new dev before after i h =
    let test : ImageInfo → Bool = λ j. dev_eq j.original_dev_id dev && not (known dev before j) in
    let one : select test after ≡ i ∷ [] =
      sym (new_images-select dev before after)
      ∙ only_ok dev before (new_images dev before after) i h in
    let (passes, listed) = selected dev before test after [] i one in
    (dev_eq→eq i.original_dev_id dev (ground (arith, passes)), ground (arith, passes), listed, one)

abbrev pub of_disk : String → VolumeSnapshot → Bool
of_disk disk v = v.original_device.tracking_id == disk

-- The volume is of the disk, and none after it is.
pub record IsFinal (disk : String) (vs : List VolumeSnapshot) (v : VolumeSnapshot) : Type 0 where
  pub earlier : List VolumeSnapshot
  pub later : List VolumeSnapshot
  pub split : vs ≡ earlier ++ v ∷ later
  pub own : v.original_device.tracking_id ≡ disk
  pub none_later : any (of_disk disk) later ≡ false

last_for_disk-IsFinal :
    (disk : String) (found : Option VolumeSnapshot) (vs : List VolumeSnapshot)
    → ((v : VolumeSnapshot) × IsFinal disk vs v × (last_for_disk disk found vs ≡ some v))
      ⊎ ((any (of_disk disk) vs ≡ false) × (last_for_disk disk found vs ≡ found))
unfolding last_for_disk
last_for_disk-IsFinal disk found [] = inr (refl, refl)
last_for_disk-IsFinal disk found (v ∷ vs) =
    elim (last_for_disk-IsFinal disk (if of_disk disk v then some v else found) vs) [
      | inl (u, l, e) ↦ inl (
        u,
        record {
          earlier = v ∷ l.earlier;
          later = l.later;
          split = ap (λ r. v ∷ r) l.split;
          own = l.own;
          none_later = l.none_later;
        },
        e,
      )
      | inr (n, e) ↦ elim (Bool-cases (of_disk disk v)) [
        | inl t ↦ inl (
          v,
          record {
            earlier = [];
            later = vs;
            split = refl;
            own = (eq_iff v.original_device.tracking_id disk).0 t;
            none_later = n;
          },
          ground (arith, t, e),
        )
        | inr t ↦ inr (ground (arith, t, n), ground (arith, t, e))
      ]
    ]

module _ ⦃bolt : Bolthold⦄ where
  open bolt use {Bucket, rows, faulty, find_one_lem}

  -- Of the stored snapshot, `FindVolumeSnapshotForDisk` gives the volume of the disk after which none
  -- is of the disk. It gives `ErrNotFound` only if no volume is of the disk, or the tracking id that
  -- was asked for is empty. The database stays.
  pub find_volume_snapshot_last :
      (snapshot_id disk : String) (s : Snapshot) (more : List Snapshot) (d : Database)
      → faulty Snapshot d.snapshots ≡ false
      → matching (λ r. r.snapshot_id == snapshot_id) (rows Snapshot d.snapshots) ≡ s ∷ more
      → ((v : VolumeSnapshot) × IsFinal disk s.volume_snapshots v
          × ((disk == "") ≡ false)
          × (find_volume_snapshot_for_disk snapshot_id disk d ≡ (ok v, d)))
        ⊎ ((((disk == "") ≡ true) ⊎ (any (of_disk disk) s.volume_snapshots ≡ false))
            × (find_volume_snapshot_for_disk snapshot_id disk d ≡ (err (typed not_found), d)))
  unfolding find_volume_snapshot_for_disk
  find_volume_snapshot_last snapshot_id disk s more d f h =
      let read = find_one_lem Snapshot (λ r. r.snapshot_id == snapshot_id) d.snapshots in
      elim (last_for_disk-IsFinal disk none s.volume_snapshots) [
        | inr (n, e) ↦ inr (inr n, ground (arith, read, f, h, e))
        | inl (v, l, e) ↦
            let same : v.original_device.tracking_id ≡ disk = l.own in
            let empty : (v.original_device.tracking_id == "") ≡ (disk == "") =
              ap (λ (x : String). x == "") same in
            elim (Bool-cases (disk == "")) [
              | inl t ↦ inr (inl t, ground (arith, read, f, h, e, empty, t))
              | inr t ↦ inl (v, l, t, ground (arith, read, f, h, e, empty, t))
            ]
      ]
