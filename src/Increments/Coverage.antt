-- ===== src/Increments/Coverage.antt =====
-- Which blocks the ranges of `fetchIncrements` cover.
use coriolis_snapshot_agent.Common.{
  ℕ, zero, suc, ◌+◌, ◌*◌, ◌^◌, ◌<◌, ◌≡◌, refl, ap, ◌≢◌, Bool, false, not, ◌&&◌, ◌||◌, List, [], ◌∷◌,
  map, Option, none, some, arith, leb, ltb, any, drop, get_elem?, length,
}
use mathlib.Core.List.{map-append}
use coriolis_snapshot_agent.Increments.{DiskRange, changed, scan, fetch_increments}
use coriolis_snapshot_agent.Increments.Blocks.{
  Run, mark_all, in_run, all_runs, hit, some_flag, only_zero, hit-after, covered-mark_all,
}
use coriolis_snapshot_agent.Increments.Scan.{
  to_range, to_loop, int64_small, scaled_le, scaled_lt, flags, scan-mark_all,
}

-- Block `j`, bytes `j * blk` up to `(j + 1) * blk`, lies in one of the ranges.
abbrev pub covered : ℕ → List DiskRange → ℕ → Bool
covered blk rs j =
    any (λ r. leb r.start_offset (j * blk) && leb (j * blk + blk) (r.start_offset + r.length)) rs

abbrev pub changed_byte : ℕ → ℕ → Option ℕ → Bool
changed_byte prev current none = false
changed_byte prev current (some b) = changed prev current b

-- The bitmap has a byte for block `j`, and it lies above `prev` and not above `current`.
abbrev pub changed_block : ℕ → ℕ → List ℕ → ℕ → Bool
changed_block prev current bitmap j = changed_byte prev current (get_elem? bitmap j)

hit-flags :
    (prev current i m j : ℕ) (bs : List ℕ)
    → i + m ≡ j
    → hit i (flags prev current bs) j ≡ changed_block prev current bs m
hit-flags prev current i m j [] e = refl
hit-flags prev current i zero j (b ∷ bs) e =
    ground (arith, hit-after (i + 1) (flags prev current bs) j)
hit-flags prev current i (suc m) j (b ∷ bs) e =
    ground (arith, hit-flags prev current (i + 1) m j bs)

some_flag-flags :
    (prev current : ℕ) (bs : List ℕ)
    → some_flag (flags prev current bs) ≡ any (changed prev current) bs
some_flag-flags prev current [] = refl
some_flag-flags prev current (b ∷ bs) = rw (some_flag-flags prev current bs)

scaled_leb : (a b blk : ℕ) → 0 < blk → leb (a * blk) (b * blk) ≡ leb a b
scaled_leb a b blk p = ground (arith, scaled_le a b blk, scaled_le (b + 1) a blk)

covered-to_range :
    (blk j : ℕ) (rs : List Run)
    → 0 < blk
    → covered blk (map (to_range blk) rs) j ≡ any (in_run j) rs
covered-to_range blk j [] p = refl
covered-to_range blk j (r ∷ rs) p = ground (
  arith,
  scaled_leb r.start j blk p,
  scaled_leb (j + 1) (r.start + r.count) blk p,
  covered-to_range blk j rs p,
)

scan_start :
    (prev current blk : ℕ) (bitmap : List ℕ)
    → scan prev current blk 0 bitmap (record { ranges = []; tmp_start_sector = 0; tmp_length = 0 })
      ≡ scan prev current blk 0 bitmap (to_loop blk (only_zero 0))
scan_start prev current blk bitmap =
    ap
      (λ (n : ℕ).
        scan prev current blk 0 bitmap
          (record { ranges = []; tmp_start_sector = 0; tmp_length = n }))
      (omega arith)

fetch_increments-eq :
    (bitmap : List ℕ) (prev current blk : ℕ)
    → prev ≢ 0
    → 0 < blk
    → length bitmap * blk < 2 ^ 64
    → fetch_increments bitmap prev current blk
      ≡ map (to_range blk) (all_runs (mark_all 0 (flags prev current bitmap) (only_zero 0)))
unfolding fetch_increments
fetch_increments-eq bitmap prev current blk q p fits =
    let t = mark_all 0 (flags prev current bitmap) (only_zero 0) in
    let run =
      scan-mark_all prev current blk 0 bitmap (only_zero 0) q p (omega arith) (omega arith) in
    let small = scaled_lt t.now.start (length bitmap) blk (omega (arith, run.1)) fits in
    let start = scan_start prev current blk bitmap in
    rw (start, run.0, int64_small (t.now.start * blk) small, map-append (to_range blk) t.runs)

-- An incremental read (a previous snapshot number other than 0) covers block `j` exactly when the
-- bitmap says that it changed, with one exception: block 0 is covered only if no other block
-- changed. The bitmap's size in bytes of disk is below 2 ^ 64, and the block size is positive.
pub covered-fetch_increments :
    (bitmap : List ℕ) (prev current blk j : ℕ)
    → prev ≢ 0
    → 0 < blk
    → length bitmap * blk < 2 ^ 64
    → covered blk (fetch_increments bitmap prev current blk) j ≡ (
        changed_block prev current bitmap j
        && (ltb 0 j || not (any (changed prev current) (drop 1 bitmap))))
covered-fetch_increments [] prev current blk j q p fits = unfold fetch_increments in ground arith
covered-fetch_increments (b ∷ bs) prev current blk j q p fits = rw (
  fetch_increments-eq (b ∷ bs) prev current blk q p fits,
  covered-to_range blk j (all_runs (mark_all 0 (flags prev current (b ∷ bs)) (only_zero 0))) p,
  covered-mark_all (changed prev current b) (flags prev current bs) j,
  hit-flags prev current 0 j j (b ∷ bs) (omega arith),
  some_flag-flags prev current bs,
)
