-- ===== src/Wire/Buffer.antt =====
-- A buffer of zeros that is filled from the front: `ret := make([]byte, n)`, and then writes at
-- `ret[processed:]`, each of which advances `processed`.
use mathlib.Core.List.{append_assoc, append-nil}
use coriolis_snapshot_agent.Common.{
  ℕ, zero, suc, ◌+◌, ◌/◌, ◌%◌, ◌≡◌, refl, List, [], ◌∷◌, ◌++◌, Option, none, some, arith, ltb,
  if◌then◌else◌, length, drop, replicate, length-replicate, drop-replicate, length-append,
}

-- `ret[:processed]` and `ret[processed:]`
pub record Cursor : Type 0 where
  pub written : List ℕ
  pub rest : List ℕ

abbrev pub Writer : Type 0
Writer = Cursor → Option Cursor

infixl 5 ◌>>◌
abbrev pub ◌>>◌ : Writer → Writer → Writer
◌>>◌ m k c = elim (m c) [ none ↦ none | some d ↦ k d ]

unfoldable pub write : List ℕ → Writer
write bs c =
    if ltb (length c.rest) (length bs)
    then none
    else some (record { written = c.written ++ bs; rest = drop (length bs) c.rest })

-- The `w` low bytes of a number, the lowest first: `binary.LittleEndian`.
abbrev pub little_endian : ℕ → ℕ → List ℕ
little_endian zero n = []
little_endian (suc w) n = n % 256 ∷ little_endian w (n / 256)

abbrev pub put_uint32 : ℕ → Writer
put_uint32 n = write (little_endian 4 n)

abbrev pub put_uint64 : ℕ → Writer
put_uint64 n = write (little_endian 8 n)

-- `copy(ret[processed:], id[:])`. After it `processed` lies past the end if there was no room.
abbrev pub copy_id : List ℕ → Writer
copy_id id = write id

unfoldable pub for_each {ℓ} : {A : Type ℓ} → (A → Writer) → List A → Writer
for_each f [] c = some c
for_each f (x ∷ xs) c = (f x >> for_each f xs) c

unfoldable pub filled : ℕ → Writer → Option (List ℕ)
filled n w = elim (w (record { written = []; rest = replicate n 0 })) [
  | none ↦ none
  | some c ↦ some (c.written ++ c.rest)
]

-- A cursor with `n` bytes to fill.
abbrev pub room : List ℕ → ℕ → Cursor
room w n = record { written = w; rest = replicate n 0 }

-- Given at least that much room, `m` writes exactly `bs` and leaves the zeros behind it.
pub record Emits (m : Writer) (bs : List ℕ) : Type 0 where
  pub at : (w : List ℕ) (n k : ℕ) → n ≡ length bs + k → m (room w n) ≡ some (room (w ++ bs) k)

pub Emits-write : (bs : List ℕ) → Emits (write bs) bs
unfolding write
Emits-write bs = record {
  at = λ w n k e.
      ground (arith, length-replicate {A = ℕ} n 0, drop-replicate {A = ℕ} (length bs) n k 0);
}

pub Emits-seq :
    (m k : Writer) (xs bs : List ℕ) → Emits m xs → Emits k bs → Emits (m >> k) (xs ++ bs)
Emits-seq m k xs bs hm hk = record {
  at = λ w n j e.
      let split = length-append xs bs in
      let first = hm.at w n (length bs + j) (omega (arith, split)) in
      let second = hk.at (w ++ xs) (length bs + j) j refl in
      ground (arith, first, second, append_assoc w xs bs);
}

abbrev pub concat_map {ℓ} : {A : Type ℓ} → (A → List ℕ) → List A → List ℕ
concat_map f [] = []
concat_map f (x ∷ xs) = f x ++ concat_map f xs

pub Emits-for_each {ℓ} :
    {A : Type ℓ} (f : A → Writer) (g : A → List ℕ) (xs : List A)
    → ((x : A) → Emits (f x) (g x))
    → Emits (for_each f xs) (concat_map g xs)
unfolding for_each
Emits-for_each f g [] h = record { at = λ w n k e. ground (arith, append-nil w) }
Emits-for_each f g (x ∷ xs) h =
    let both =
      Emits-seq (f x) (for_each f xs) (g x) (concat_map g xs) (h x) (Emits-for_each f g xs h) in
    record { at = both.at }

-- A buffer of the right size is filled without a panic.
pub filled-Emits :
    (n : ℕ) (m : Writer) (bs : List ℕ) → Emits m bs → n ≡ length bs → filled n m ≡ some bs
unfolding filled
filled-Emits n m bs h e = ground (arith, h.at [] n 0 (omega arith), append-nil bs)
