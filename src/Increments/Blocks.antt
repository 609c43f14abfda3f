-- ===== src/Increments/Blocks.antt =====
-- The loop of `fetchIncrements` counted in blocks instead of bytes, for an incremental read: runs
-- of blocks, and the blocks that they cover.
use coriolis_snapshot_agent.Common.{
  ℕ, ◌+◌, ◌≤◌, ◌<◌, ◌≡◌, refl, ◌≢◌, Bool, true, false, not, ◌&&◌, ◌||◌, List, [], ◌∷◌, ◌++◌, arith,
  leb, ltb, eqb, if◌then◌else◌, any, any-append,
}

pub record Run : Type 0 where
  pub start : ℕ
  pub count : ℕ

pub record Blocks : Type 0 where
  pub runs : List Run
  pub now : Run

unfoldable pub mark : ℕ → Bool → Blocks → Blocks
mark i c s =
    if c
    then (if eqb s.now.start 0
        then record s { now = record { start = i; count = 1 } }
        else if eqb (s.now.start + s.now.count) i
        then record s { now = record { start = s.now.start; count = s.now.count + 1 } }
        else record { runs = s.runs ++ s.now ∷ []; now = record { start = i; count = 1 } })
    else s

unfoldable pub mark_all : ℕ → List Bool → Blocks → Blocks
mark_all i [] s = s
mark_all i (c ∷ cs) s = mark_all (i + 1) cs (mark i c s)

abbrev pub in_run : ℕ → Run → Bool
in_run j r = leb r.start j && ltb j (r.start + r.count)

abbrev pub all_runs : Blocks → List Run
all_runs s = s.runs ++ s.now ∷ []

-- Whether block `j` is flagged, the first flag being that of block `i`.
abbrev pub hit : ℕ → List Bool → ℕ → Bool
hit i [] j = false
hit i (c ∷ cs) j = (eqb i j && c) || hit (i + 1) cs j

abbrev pub some_flag : List Bool → Bool
some_flag = any (λ c. c)

covered_by : ℕ → Blocks → Bool
covered_by j s = any (in_run j) s.runs || in_run j s.now

any-all_runs : (j : ℕ) (s : Blocks) → any (in_run j) (all_runs s) ≡ covered_by j s
unfolding covered_by
any-all_runs j s = ground (arith, any-append (in_run j) s.runs (s.now ∷ []))

-- Once a run has begun after block 0, each flagged block is added and none is lost.
covered_by-mark :
    (i : ℕ) (c : Bool) (s : Blocks) (j : ℕ)
    → s.now.start ≢ 0
    → s.now.start + s.now.count ≤ i
    → covered_by j (mark i c s) ≡ (covered_by j s || (eqb i j && c))
unfolding covered_by mark
covered_by-mark i c s j h e = ground (arith, any-append (in_run j) s.runs (s.now ∷ []))

mark_bounds :
    (i : ℕ) (c : Bool) (s : Blocks)
    → i ≢ 0
    → s.now.start ≢ 0
    → s.now.start + s.now.count ≤ i
    → ((mark i c s).now.start ≢ 0) × ((mark i c s).now.start + (mark i c s).now.count ≤ i + 1)
unfolding mark
mark_bounds i c s p h e = ground arith

covered_by-mark_all :
    (i : ℕ) (cs : List Bool) (s : Blocks) (j : ℕ)
    → i ≢ 0
    → s.now.start ≢ 0
    → s.now.start + s.now.count ≤ i
    → covered_by j (mark_all i cs s) ≡ (covered_by j s || hit i cs j)
unfolding mark_all
covered_by-mark_all i [] s j p h e = ground arith
covered_by-mark_all i (c ∷ cs) s j p h e =
    let b = mark_bounds i c s p h e in
    ground (
      arith,
      covered_by-mark i c s j h e,
      covered_by-mark_all (i + 1) cs (mark i c s) j (omega arith) b.0 b.1,
    )

-- Until then the state remembers at most block 0, and forgets it at the first flag.
abbrev pub only_zero : ℕ → Blocks
only_zero k = record { runs = []; now = record { start = 0; count = k } }

covered_by-first :
    (i j : ℕ)
    → i ≢ 0
    → covered_by j (record { runs = []; now = record { start = i; count = 1 } }) ≡ eqb i j
unfolding covered_by
covered_by-first i j p = ground arith

covered_by-start :
    (i : ℕ) (cs : List Bool) (k j : ℕ)
    → i ≢ 0
    → covered_by j (mark_all i cs (only_zero k)) ≡ (if some_flag cs then hit i cs j else ltb j k)
unfolding mark_all mark
covered_by-start i [] k j p = unfold covered_by in ground arith
covered_by-start i (true ∷ cs) k j p =
    let s : Blocks = record { runs = []; now = record { start = i; count = 1 } } in
    ground (
      arith,
      covered_by-mark_all (i + 1) cs s j (omega arith) p (omega arith),
      covered_by-first i j p,
    )
covered_by-start i (false ∷ cs) k j p = ground (arith, covered_by-start (i + 1) cs k j)

hit_none : (i : ℕ) (cs : List Bool) (j : ℕ) → some_flag cs ≡ false → hit i cs j ≡ false
hit_none i [] j h = refl
hit_none i (c ∷ cs) j h = ground (arith, hit_none (i + 1) cs j)

pub hit-after : (i : ℕ) (cs : List Bool) (j : ℕ) → j < i → hit i cs j ≡ false
hit-after i [] j h = refl
hit-after i (c ∷ cs) j h = ground (arith, hit-after (i + 1) cs j)

-- Run over a whole bitmap, the loop covers the flagged blocks; but block 0 it covers only if no
-- other block is flagged.
pub covered-mark_all :
    (c : Bool) (cs : List Bool) (j : ℕ)
    → any (in_run j) (all_runs (mark_all 0 (c ∷ cs) (only_zero 0)))
      ≡ (hit 0 (c ∷ cs) j && (ltb 0 j || not (some_flag cs)))
unfolding mark_all
covered-mark_all true cs j =
    rw any-all_runs
      (unfold mark in ground (arith, covered_by-start 1 cs 1 j, hit-after 1 cs j, hit_none 1 cs j))
covered-mark_all false cs j =
    rw any-all_runs
      (unfold mark in ground (arith, covered_by-start 1 cs 0 j, hit-after 1 cs j, hit_none 1 cs j))
