-- ===== src/Increments/Full.antt =====
-- A full read: the previous snapshot number is 0.
use coriolis_snapshot_agent.Common.{
  ℕ, ◌+◌, ◌*◌, ◌^◌, ◌<◌, ◌≡◌, ap, ◌∙◌, List, [], ◌∷◌, arith, length,
}
use coriolis_snapshot_agent.Increments.{Loop, round, scan, fetch_increments}
use coriolis_snapshot_agent.Increments.Scan.{int64_small, scaled_lt}

abbrev from_start : ℕ → Loop
from_start n = record { ranges = []; tmp_start_sector = 0; tmp_length = n }

round_full :
    (current blk i b : ℕ)
    → (i + 1) * blk < 2 ^ 64
    → round 0 current blk i b (from_start (i * blk)) ≡ from_start ((i + 1) * blk)
unfolding round
round_full current blk i b fits =
    ground (arith, int64_small (i * blk) (omega arith), int64_small (i * blk + blk) (omega arith))

scan_full :
    (current blk i n : ℕ) (bs : List ℕ)
    → i + length bs ≡ n
    → n * blk < 2 ^ 64
    → scan 0 current blk i bs (from_start (i * blk)) ≡ from_start (n * blk)
unfolding scan
scan_full current blk i n [] e fits = ground arith
scan_full current blk i n (b ∷ bs) e fits =
    rw (round_full current blk i b (scaled_lt (i + 1) n blk (omega arith) fits))
      (scan_full current blk (i + 1) n bs (omega arith) fits)

-- With a previous number of 0 the result is one range, from 0 over the whole disk that the bitmap
-- describes (below 2 ^ 64 bytes), whatever the bitmap holds.
pub fetch_increments_full :
    (bitmap : List ℕ) (current blk : ℕ)
    → length bitmap * blk < 2 ^ 64
    → fetch_increments bitmap 0 current blk
      ≡ record { start_offset = 0; length = length bitmap * blk } ∷ []
unfolding fetch_increments
fetch_increments_full bitmap current blk fits =
    let start : from_start 0 ≡ from_start (0 * blk) = ap from_start (omega arith) in
    let run = scan_full current blk 0 (length bitmap) bitmap (omega arith) fits in
    rw (ap (scan 0 current blk 0 bitmap) start ∙ run) (ground arith)
