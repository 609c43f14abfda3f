-- ===== src/Tests/Ioctl.antt =====
-- Examples for the calls of the kernel module.
use coriolis_snapshot_agent.Common.{◌≡◌, refl, [], ◌∷◌, none}
use coriolis_snapshot_agent.Errors.{panicked}
use coriolis_snapshot_agent.Result.{ok, err}
use coriolis_snapshot_agent.Types.{CbtInfo}
use coriolis_snapshot_agent.Ioctl.{Module, snapstore_file, snapstore_file_multidev, get_cbt_bitmap}
use coriolis_snapshot_agent.Ioctl.Files.{
  snap_store_add_file, snap_store_add_file_multidev, snap_store_add_file_accepts,
}
use coriolis_snapshot_agent.Tests.Samples.{dev, store_id, two_ranges}

abbrev sda_cbt : CbtInfo
sda_cbt = record {
  dev_id = dev 0;
  dev_capacity = 1000;
  cbt_map_size = 4;
  snap_number = 1;
  generation_id = [];
}

abbrev pub kmod : Module
kmod = record {
  open_device = ok tt;
  done = λ asked q. ok tt;
  number = λ asked q. ok 1;
  cbt_buffer = λ asked i. sda_cbt;
  image_buffer = λ asked i. record { original_dev_id = dev 0; snapshot_dev_id = dev 1 };
  bitmap_buffer = λ asked i. i;
  bytes_read = λ asked q. 4;
  unresolved = λ asked. ok none;
  symbols = ok [];
}

-- The file lies on 8:16, the snap store is to be on 8:32.
snap_store_add_file_accepts_example :
    (snap_store_add_file kmod store_id (dev 32) (ok (two_ranges, dev 16)) []).1
    ≡ snapstore_file store_id 2 two_ranges ∷ []
snap_store_add_file_accepts_example =
    snap_store_add_file_accepts kmod store_id (dev 32) (dev 16) (record { left = 0; right = 4096 })
      (record { left = 8192; right = 70000 } ∷ []) [] refl

-- The ranges of a file for several devices are sent as zeros.
no_ranges :
    (snap_store_add_file_multidev kmod store_id (ok (two_ranges, dev 16)) []).1
    ≡ snapstore_file_multidev store_id
        (dev 16)
        2
        (record { left = 0; right = 0 } ∷ record { left = 0; right = 0 } ∷ [])
      ∷ []
unfolding snap_store_add_file_multidev
no_ranges = refl

whole_bitmap : (get_cbt_bitmap kmod (dev 0) []).0 ≡ ok (0 ∷ 1 ∷ 2 ∷ 3 ∷ [])
unfolding get_cbt_bitmap
whole_bitmap = refl

-- A device that is not tracked has no bitmap.
untracked_panics : (get_cbt_bitmap kmod (dev 7) []).0 ≡ err panicked
unfolding get_cbt_bitmap
untracked_panics = refl
