-- ===== src/Storage/Files/Extents.antt =====
-- internal/util/util.go: the ranges that `GetFileRanges` gives, as the messages to the kernel module
-- carry them.
use coriolis_snapshot_agent.Common.{◌+◌, ◌^◌, ◌<◌, ◌≤◌, ◌≡◌, refl, List, [], ◌∷◌, map, All, arith}
use coriolis_snapshot_agent.Result.{ok}
use coriolis_snapshot_agent.Types.{Range}
use coriolis_snapshot_agent.Storage.{PhysicalDiskInfo}
use coriolis_snapshot_agent.Storage.Fiemap.{Extent}
use coriolis_snapshot_agent.Storage.Files.{extent_range, file_ranges}

-- The extent lies below 2 ^ 64 and is not empty.
abbrev pub IsExtent : Extent → Type 0
IsExtent e = (0 < e.length) × (e.physical + e.length ≤ 2 ^ 64)

-- Each range begins with its extent, and holds as many bytes, both ends included.
pub Spans : List Extent → List Range → Type 0
Spans [] [] = Unit
Spans (e ∷ es) (r ∷ rs) =
    ((r.left ≡ e.physical) × (r.right + 1 ≡ r.left + e.length) × (r.right < 2 ^ 64)) × Spans es rs
Spans [] (r ∷ rs) = ⊥
Spans (e ∷ es) [] = ⊥

spans : (es : List Extent) → All IsExtent es → Spans es (map extent_range es)
unfolding Spans
spans [] h = tt
spans (e ∷ es) (h, hs) = ((refl, omega arith, omega arith), spans es hs)

-- For extents that are not empty and lie below 2 ^ 64 there is one range each, in their order, which
-- begins where the extent does, ends at its last byte, and does not wrap around.
pub file_ranges_span :
    (disk : PhysicalDiskInfo) (es : List Extent)
    → All IsExtent es
    → (rs : List Range) × (file_ranges (ok disk) (ok es)
        ≡ ok (rs, record { major = disk.major; minor = disk.minor }))
      × Spans es rs
unfolding file_ranges
file_ranges_span disk es h = (map extent_range es, refl, spans es h)
