-- ===== src/Increments.antt =====
-- worker/manager/manager.go: `fetchIncrements`, which turns the bitmap of changed blocks into the
-- disk ranges to download. An `int` is its 64-bit pattern.
mod Blocks
mod Scan
pub mod Coverage
pub mod Full
use coriolis_snapshot_agent.Common.{
  ℕ, ◌+◌, ◌*◌, ◌%◌, ◌^◌, Bool, not, ◌&&◌, ◌||◌, List, [], ◌∷◌, ◌++◌, leb, ltb, eqb, if◌then◌else◌,
}

-- `params.DiskRange`
pub record DiskRange : Type 0 where
  pub start_offset : ℕ
  pub length : ℕ

abbrev pub int64 : ℕ → ℕ
int64 n = n % 2 ^ 64

-- The variables of the loop.
pub record Loop : Type 0 where
  pub ranges : List DiskRange
  pub tmp_start_sector : ℕ
  pub tmp_length : ℕ

-- `int(bitmap[i]) <= prevNumber || int(bitmap[i]) > currentNumber`, negated
unfoldable pub changed : ℕ → ℕ → ℕ → Bool
changed prev current b = not (leb b prev || ltb current b)

abbrev pub pending : ℕ → Loop → DiskRange
pending blk s = record { start_offset = int64 (s.tmp_start_sector * blk); length = s.tmp_length }

-- One round of the loop, for the byte `b` at index `i`.
unfoldable pub round : ℕ → ℕ → ℕ → ℕ → ℕ → Loop → Loop
round prev current blk i b s =
    if not (eqb prev 0) && not (changed prev current b)
    then s
    else if not (eqb prev 0) && eqb s.tmp_start_sector 0
    then record s { tmp_start_sector = i; tmp_length = blk }
    else if eqb (int64 (s.tmp_start_sector * blk + s.tmp_length)) (int64 (i * blk))
    then record s { tmp_length = int64 (s.tmp_length + blk) }
    else record { ranges = s.ranges ++ pending blk s ∷ []; tmp_start_sector = i; tmp_length = blk }

unfoldable pub scan : ℕ → ℕ → ℕ → ℕ → List ℕ → Loop → Loop
unfolding round
scan prev current blk i [] s = s
scan prev current blk i (b ∷ bs) s = scan prev current blk (i + 1) bs (round prev current blk i b s)

unfoldable pub fetch_increments : List ℕ → ℕ → ℕ → ℕ → List DiskRange
unfolding scan changed
fetch_increments bitmap prev current blk =
    let s =
      scan prev current blk 0 bitmap
        (record { ranges = []; tmp_start_sector = 0; tmp_length = 0 }) in
    s.ranges ++ pending blk s ∷ []
