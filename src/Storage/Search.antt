-- ===== src/Storage/Search.antt =====
-- internal/storage/storage.go and internal/util/util.go: what the searches find, and what they miss.
use mathlib.Core.Path.{subst}
use coriolis_snapshot_agent.Common.{
  ℕ, ◌≡◌, refl, Bool, true, false, not, ◌&&◌, ◌||◌, List, [], ◌∷◌, ◌++◌, String, Option, none, some,
  ◌==◌, if◌then◌else◌, any, All, leb, length, find_first, arith,
}
use coriolis_snapshot_agent.Errors.{typed, not_found}
use coriolis_snapshot_agent.Result.{Result, ok, err}
use coriolis_snapshot_agent.Storage.{
  Partition, BlockVolume, Probe, probe_one, keep, block_device_list, find_device_by_id,
  partition_path, is_dev, involved, first_partition_in, mem_path,
}

-- The volume passes the three filters.
unfoldable pub Passes : Bool → Bool → BlockVolume → Type 0
Passes include_virtual include_swap v =
    ((v.is_virtual && not include_virtual) ≡ false)
    × (((v.filesystem_type == "swap") && not include_swap) ≡ false)

-- A predicate of the volumes of which one round keeps holds for all that are listed.
pub kept :
    (P : BlockVolume → Type 0) (r : Result (Option BlockVolume)) (rest : Result (List BlockVolume))
    (vs : List BlockVolume)
    → ((v : BlockVolume) → r ≡ ok (some v) → P v)
    → ((us : List BlockVolume) → rest ≡ ok us → All P us)
    → keep r rest ≡ ok vs
    → All P vs
kept P (err e) rest vs h k eq = absurd (cc (eq))
kept P (ok none) rest vs h k eq = k vs eq
kept P (ok (some v)) (err e) vs h k eq = absurd (cc (eq))
kept P (ok (some v)) (ok us) vs h k eq =
    let same : v ∷ us ≡ vs = cc (eq) in subst (All P) same (h v refl, k us refl)

module _ (ignore_mounted include_virtual include_swap : Bool) where
  probed :
      (p : Probe) (v : BlockVolume)
      → probe_one ignore_mounted include_virtual include_swap p ≡ ok (some v)
      → Passes include_virtual include_swap v
  unfolding probe_one Passes
  probed p v h = ground (arith)

  -- Whatever the probes say, a list that `BlockDeviceList` returns holds virtual devices and swap only
  -- if they were asked for.
  pub block_device_list_filters :
      (ps : List Probe) (vs : List BlockVolume)
      → block_device_list ignore_mounted include_virtual include_swap ps ≡ ok vs
      → All (Passes include_virtual include_swap) vs
  unfolding block_device_list
  block_device_list_filters [] vs h =
      let same : [] ≡ vs = cc (h) in subst (All (Passes include_virtual include_swap)) same tt
  block_device_list_filters (p ∷ ps) vs h =
      kept (Passes include_virtual include_swap)
        (probe_one ignore_mounted include_virtual include_swap p)
        (block_device_list ignore_mounted include_virtual include_swap ps) vs (probed p)
        (λ us e. block_device_list_filters ps us e) h

-- A device number with the path in /dev, for each volume and then its partitions.
pub record Entry : Type 0 where
  pub major : ℕ
  pub minor : ℕ
  pub path : String

abbrev pub partition_entries : List Partition → List Entry
partition_entries [] = []
partition_entries (p ∷ ps) =
    record { major = p.major; minor = p.minor; path = p.path } ∷ partition_entries ps

abbrev pub entries : List BlockVolume → List Entry
entries [] = []
entries (v ∷ vs) =
    record { major = v.major; minor = v.minor; path = v.path }
    ∷ (partition_entries v.partitions ++ entries vs)

abbrev pub path_of : Option Entry → Result String
path_of none = err (typed not_found)
path_of (some e) = ok e.path

module _ (major minor : ℕ) where
  -- The first entry with the device number.
  abbrev pub wanted : List Entry → Option Entry
  wanted = find_first (λ e. is_dev major minor e.major e.minor)

  wanted-partitions :
      (ps : List Partition) (rest : List Entry)
      → path_of (wanted (partition_entries ps ++ rest)) ≡ elim (partition_path major minor ps) [
        | some path ↦ ok path
        | none ↦ path_of (wanted rest)
      ]
  wanted-partitions [] rest = refl
  wanted-partitions (p ∷ ps) rest = ground (arith, wanted-partitions ps rest)

  -- `FindDeviceByID` is a search in one flat table of all disks and partitions in their order: it
  -- gives the path of the first entry with that device number, and `ErrNotFound` if there is none.
  pub find_device_by_id_first :
      (vs : List BlockVolume) → find_device_by_id major minor vs ≡ path_of (wanted (entries vs))
  unfolding find_device_by_id
  find_device_by_id_first [] = refl
  find_device_by_id_first (v ∷ vs) =
      ground (arith, wanted-partitions v.partitions (entries vs), find_device_by_id_first vs)

-- What the search of `FindAllInvolvedDevices` is for: the volumes of which some device is a part.
abbrev pub part_of : List String → BlockVolume → Bool
part_of paths v =
    mem_path v.path paths || any (λ (p : Partition). mem_path p.path paths) v.partitions

abbrev pub all_involved : List String → List BlockVolume → List String
all_involved paths [] = []
all_involved paths (v ∷ vs) =
    (if part_of paths v then v.path ∷ (if v.is_virtual then v.device_mapper_slaves else []) else [])
    ++ all_involved paths vs

one_partition :
    (paths : List String) (ps : List Partition)
    → leb (length ps) 1 ≡ true
    → first_partition_in paths ps ≡ any (λ (p : Partition). mem_path p.path paths) ps
one_partition paths [] h = refl
one_partition paths (p ∷ []) h = ground (arith)
one_partition paths (p ∷ q ∷ ps) h = absurd (ground (arith))

-- The search finds exactly what it is for, in the order of the machine's devices, while no volume
-- has more than one partition.
pub involved_agrees :
    (paths : List String) (vs : List BlockVolume)
    → All (λ v. leb (length v.partitions) 1 ≡ true) vs
    → involved paths vs ≡ all_involved paths vs
unfolding involved
involved_agrees paths [] h = refl
involved_agrees paths (v ∷ vs) (h, hs) =
    ground (arith, one_partition paths v.partitions h, involved_agrees paths vs hs)
