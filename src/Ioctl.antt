-- ===== src/Ioctl.antt =====
-- internal/ioctl/ioctl.go: the calls of the kernel module. The state is the list of the requests that
-- were made; what the module answers to each, after those before it, is a `Module`.
pub mod Files
use coriolis_snapshot_agent.Common.{
  ℕ, zero, suc, ◌+◌, ◌%◌, ◌^◌, Bool, not, ◌&&◌, List, [], ◌∷◌, ◌++◌, map, String, ◌==◌, Option,
  none, some, eqb, if◌then◌else◌, length, replicate,
}
use coriolis_snapshot_agent.Errors.{plain, panicked, wrap}
use coriolis_snapshot_agent.Result.{
  Result, ok, err, Action, check, pure, raise, lift, wrapping, ◌>>=◌, ◌>>◌,
}
use coriolis_snapshot_agent.Types.{DevId, CbtInfo, Range, ImageInfo, dev_eq}

-- A request with the fields of its C struct that the code sets. A count is 32 bits.
pub data Request : Type 0 where
  tracking_add tracking_remove : DevId → Request
  tracking_collect : ℕ → Request
  tracking_block_size : Request
  read_cbt_bitmap : DevId → ℕ → Request
  snapshot_create : ℕ → List DevId → Request
  snapshot_destroy : ℕ → Request
  -- id, count, snap store device, devices
  snapstore_create : List ℕ → ℕ → DevId → List DevId → Request
  snapstore_memory : List ℕ → ℕ → Request
  snapstore_file : List ℕ → ℕ → List Range → Request
  snapstore_file_multidev : List ℕ → DevId → ℕ → List Range → Request
  snapstore_cleanup : List ℕ → Request
  collect_images : ℕ → Request
  get_unresolved_entries : Request
  set_kernel_entries : ℕ → String → ℕ → String → Request

-- What a request leaves in memory: the first word of the return, a number in the struct, and what it
-- wrote into the buffer that it was given. A buffer may hold anything where nothing was written.
pub record Module : Type 0 where
  -- `os.OpenFile(VEEAM_DEV, …)`
  pub open_device : Result (Unit {0})
  -- a request that returns 0 or fails
  pub done : List Request → Request → Result (Unit {0})
  pub number : List Request → Request → Result ℕ
  pub cbt_buffer : List Request → ℕ → CbtInfo
  pub image_buffer : List Request → ℕ → ImageInfo
  pub bitmap_buffer : List Request → ℕ → ℕ
  -- `r1` of `IOCTL_TRACKING_READ_CBT_BITMAP`
  pub bytes_read : List Request → Request → ℕ
  -- `none` for no unresolved entry
  pub unresolved : List Request → Result (Option String)
  -- the lines of /proc/kallsyms that `fmt.Sscanf` reads with "%x T %s"
  pub symbols : Result (List (ℕ × String))

-- The first `n` entries of a buffer.
abbrev pub read_buffer : {A : Type 0} → (ℕ → A) → ℕ → ℕ → List A
read_buffer buffer i zero = []
read_buffer buffer i (suc n) = buffer i ∷ read_buffer buffer (i + 1) n

abbrev pub uint32 : ℕ → ℕ
uint32 n = n % 2 ^ 32

-- `&s[0]`
abbrev pub first_address : {A : Type 0} → List A → Result (Unit {0})
first_address [] = err panicked
first_address (a ∷ rest) = ok tt

abbrev pub no_dev : DevId
no_dev = record { major = 0; minor = 0 }

module _ (kmod : Module) where
  abbrev pub opened : Action (List Request) (Unit {0})
  opened = wrapping (lift kmod.open_device)

  -- `if r1 != 0 { return errors.Wrap(err, …) }`
  abbrev pub ask : Request → Action (List Request) (Unit {0})
  ask q asked = wrapping (lift (kmod.done asked q)) (asked ++ q ∷ [])

  abbrev pub ask_number : Request → Action (List Request) ℕ
  ask_number q asked = wrapping (lift (kmod.number asked q)) (asked ++ q ∷ [])

  -- The first call asks for the count, the second fills a buffer of that size.
  unfoldable pub get_cbt_info : Action (List Request) (List CbtInfo)
  get_cbt_info = do
    opened
    count ← ask_number (tracking_collect 0)
    ask (tracking_collect count)
    (λ (asked : List Request). (ok (read_buffer (kmod.cbt_buffer asked) 0 count), asked))

  -- `deviceCBTInfo.CBTMapSize`, 0 for a device that is not there.
  unfoldable pub map_size_of : DevId → List CbtInfo → ℕ
  map_size_of dev [] = 0
  map_size_of dev (c ∷ cs) = if dev_eq c.dev_id dev then c.cbt_map_size else map_size_of dev cs

  abbrev pub read_bitmap : DevId → ℕ → Action (List Request) (List ℕ)
  read_bitmap dev size asked = (
    if eqb (uint32 (kmod.bytes_read asked (read_cbt_bitmap dev size))) size
        then ok (read_buffer (kmod.bitmap_buffer (asked ++ read_cbt_bitmap dev size ∷ [])) 0 size)
        else err (wrap plain),
    asked ++ read_cbt_bitmap dev size ∷ [],
  )

  -- `GetCBTBitmap`; the buffer of a device without a bitmap has no first byte.
  unfoldable pub get_cbt_bitmap : DevId → Action (List Request) (List ℕ)
  unfolding get_cbt_info map_size_of
  get_cbt_bitmap dev = do
    infos ← wrapping get_cbt_info
    opened
    lift (first_address {A = ℕ} (replicate (map_size_of dev infos) 0))
    read_bitmap dev (map_size_of dev infos)

  unfoldable pub add_device_to_tracking : DevId → Action (List Request) (Unit {0})
  add_device_to_tracking dev = do opened; ask (tracking_add dev)

  unfoldable pub remove_device_from_tracking : DevId → Action (List Request) (Unit {0})
  remove_device_from_tracking dev = do opened; ask (tracking_remove dev)

  unfoldable pub get_tracking_block_size : Action (List Request) ℕ
  get_tracking_block_size = do opened; ask_number tracking_block_size

  -- The device of the snap store is set only if both of its numbers are not 0.
  unfoldable pub create_snap_store_request : List ℕ → List DevId → DevId → Request
  create_snap_store_request id devices snap_device =
      snapstore_create id 1
        (if not (eqb snap_device.major 0) && not (eqb snap_device.minor 0)
          then snap_device
          else no_dev)
        devices

  -- `CreateSnapStore`
  unfoldable pub create_store : List ℕ → List DevId → DevId → Action (List Request) (Unit {0})
  unfolding create_snap_store_request
  create_store id devices snap_device = do
    opened
    lift (first_address devices)
    ask (create_snap_store_request id devices snap_device)

  unfoldable pub snap_store_add_memory : List ℕ → ℕ → Action (List Request) (Unit {0})
  snap_store_add_memory id size = do opened; ask (snapstore_memory id size)

  -- `SnapStoreCleanup`: the bytes that are filled.
  unfoldable pub snap_store_cleanup : List ℕ → Action (List Request) ℕ
  snap_store_cleanup id = do opened; ask_number (snapstore_cleanup id)

  -- `CreateSnapshot`: the id of the snapshot.
  unfoldable pub create_kernel_snapshot : List DevId → Action (List Request) ℕ
  create_kernel_snapshot devices = do
    opened
    lift (first_address devices)
    ask_number (snapshot_create (uint32 (length devices)) devices)

  -- `DeleteSnapshot`
  unfoldable pub delete_kernel_snapshot : ℕ → Action (List Request) (Unit {0})
  delete_kernel_snapshot id = do opened; ask (snapshot_destroy id)

  abbrev pub fetch_images : ℕ → Action (List Request) (List ImageInfo)
  fetch_images zero = pure []
  fetch_images (suc n) = do
    ask (collect_images (suc n))
    (λ (asked : List Request). (ok (read_buffer (kmod.image_buffer asked) 0 (suc n)), asked))

  -- `CollectSnapshotImages`; the error ENODATA of the first call is a number here.
  unfoldable pub collect_snapshot_images : Action (List Request) (List ImageInfo)
  collect_snapshot_images = do opened; count ← ask_number (collect_images 0); fetch_images count

  -- The loop of `getKernelEntryAddress`: the first line with the name, 0 without one.
  abbrev pub address_in : String → List (ℕ × String) → ℕ
  address_in name [] = 0
  address_in name ((address, n) ∷ rest) = if name == n then address else address_in name rest

  unfoldable pub get_kernel_entry_address : String → Result ℕ
  get_kernel_entry_address name = elim kmod.symbols [
    | err e ↦ err (wrap e)
    | ok lines ↦
        let address = address_in name lines in if eqb address 0 then err plain else ok address
  ]

  unfoldable pub resolve : Option String → Action (List Request) (Unit {0})
  unfolding get_kernel_entry_address
  resolve none = pure tt
  resolve (some name) = do
    base ← wrapping (lift (get_kernel_entry_address "__request_module"))
    address ← wrapping (lift (get_kernel_entry_address name))
    ask (set_kernel_entries base "__request_module" address name)

  -- `SetMissingKernelEntries`
  unfoldable pub set_missing_kernel_entries : Action (List Request) (Unit {0})
  unfolding resolve
  set_missing_kernel_entries = do
    opened
    entry ← (λ (asked : List Request).
        wrapping (lift (kmod.unresolved asked)) (asked ++ get_unresolved_entries ∷ []))
    resolve entry
