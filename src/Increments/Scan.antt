-- ===== src/Increments/Scan.antt =====
-- The loop over bytes is the loop over blocks, scaled, as long as the offsets fit 64 bits.
use mathlib.Core.List.{map-append}
use coriolis_snapshot_agent.Common.{
  ℕ, ◌+◌, ◌*◌, ◌^◌, ◌≤◌, ◌<◌, ◌≡◌, refl, ◌≢◌, Bool, List, [], ◌∷◌, map, arith, eqb, length,
  Bool-cases, false, inl, inr,
}
use coriolis_snapshot_agent.Increments.{DiskRange, Loop, int64, changed, round, scan}
use coriolis_snapshot_agent.Increments.Blocks.{Run, Blocks, mark, mark_all}

abbrev pub to_range : ℕ → Run → DiskRange
to_range blk r = record { start_offset = r.start * blk; length = r.count * blk }

abbrev pub to_loop : ℕ → Blocks → Loop
to_loop blk t = record {
  ranges = map (to_range blk) t.runs;
  tmp_start_sector = t.now.start;
  tmp_length = t.now.count * blk;
}

pub int64_small : (n : ℕ) → n < 2 ^ 64 → int64 n ≡ n
int64_small n h = omega arith

pub scaled_le : (a i blk : ℕ) → a ≤ i → a * blk ≤ i * blk
scaled_le a i blk h = grind arith

pub scaled_lt : (a i blk : ℕ) → a ≤ i → i * blk < 2 ^ 64 → a * blk < 2 ^ 64
scaled_lt a i blk h fits = omega (arith, scaled_le a i blk h)

scaled_eq : (a i blk : ℕ) → 0 < blk → a ≤ i → a * blk ≡ i * blk → a ≡ i
scaled_eq a i blk p h e = grind arith

eqb-scaled :
    (start count i blk : ℕ)
    → 0 < blk
    → i * blk < 2 ^ 64
    → start + count ≤ i
    → eqb (int64 (start * blk + count * blk)) (int64 (i * blk)) ≡ eqb (start + count) i
eqb-scaled start count i blk p fits h =
    let le = scaled_le (start + count) i blk h in
    let left = int64_small (start * blk + count * blk) (omega arith) in
    let right = int64_small (i * blk) fits in
    rw (left, right) (ground (arith, scaled_eq (start + count) i blk p h))

eqb-ne : (a b : ℕ) → a ≢ b → eqb a b ≡ false
eqb-ne a b h = ground arith

round-mark :
    (prev current blk i b : ℕ) (t : Blocks)
    → prev ≢ 0
    → 0 < blk
    → (i + 1) * blk < 2 ^ 64
    → t.now.start + t.now.count ≤ i
    → round prev current blk i b (to_loop blk t) ≡ to_loop blk (mark i (changed prev current b) t)
unfolding round mark
round-mark prev current blk i b t q p fits h =
    let le = scaled_le (t.now.start + t.now.count) i blk h in
    let incremental = eqb-ne prev 0 q in
    let scaled = eqb-scaled t.now.start t.now.count i blk p (omega arith) h in
    elim (Bool-cases (changed prev current b)) [
      | inr e ↦ rw (incremental, e)
      | inl e ↦ elim (Bool-cases (eqb t.now.start 0)) [
        | inl z ↦ rw (incremental, e, z) (ground arith)
        | inr z ↦ elim (Bool-cases (eqb (t.now.start + t.now.count) i)) [
          | inl m ↦
              rw (incremental, e, z, scaled, m)
                (rw (int64_small (t.now.count * blk + blk) (omega arith)) (ground arith))
          | inr m ↦
              rw (incremental, e, z, scaled, m)
                (rw
                  (
                    map-append (to_range blk) t.runs (t.now ∷ []),
                    int64_small (t.now.start * blk) (omega arith),
                  )
                  (ground arith))
        ]
      ]
    ]

mark_bound :
    (i : ℕ) (c : Bool) (t : Blocks)
    → t.now.start + t.now.count ≤ i
    → (mark i c t).now.start + (mark i c t).now.count ≤ i + 1
unfolding mark
mark_bound i c t h = ground arith

abbrev pub flags : ℕ → ℕ → List ℕ → List Bool
flags prev current = map (changed prev current)

pub scan-mark_all :
    (prev current blk i : ℕ) (bs : List ℕ) (t : Blocks)
    → prev ≢ 0
    → 0 < blk
    → (i + length bs) * blk < 2 ^ 64
    → t.now.start + t.now.count ≤ i
    → (scan prev current blk i bs (to_loop blk t)
        ≡ to_loop blk (mark_all i (flags prev current bs) t))
      × ((mark_all i (flags prev current bs) t).now.start
            + (mark_all i (flags prev current bs) t).now.count
          ≤ i + length bs)
unfolding scan mark_all
scan-mark_all prev current blk i [] t q p fits h = (refl, omega arith)
scan-mark_all prev current blk i (b ∷ bs) t q p fits h =
    let e =
      round-mark prev current blk i b t q p
        (scaled_lt (i + 1) (i + length (b ∷ bs)) blk (omega arith) fits) h in
    let ih =
      scan-mark_all prev current blk (i + 1) bs (mark i (changed prev current b) t) q p
        (omega arith) (mark_bound i (changed prev current b) t h) in
    (rw e ih.0, omega (arith, ih.1))
