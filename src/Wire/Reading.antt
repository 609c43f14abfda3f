-- ===== src/Wire/Reading.antt =====
-- What the receiver's parsers read of the bytes that the writers emit.
use coriolis_snapshot_agent.Common.{
  ℕ, zero, suc, ◌*◌, ◌/◌, ◌^◌, ◌<◌, ◌≡◌, refl, List, [], ◌∷◌, ◌++◌, some, arith, length, All,
  length-append,
}
use mathlib.Core.List.{append_assoc, append-nil}
use coriolis_snapshot_agent.Types.{DevId, Range}
use coriolis_snapshot_agent.Wire.Buffer.{little_endian, concat_map}
use coriolis_snapshot_agent.Wire.Format.{
  Parser, return, ◌>>=◌, expect, number, bytes, many, dev_id, range, whole,
}

pub number-little_endian :
    (w n : ℕ) (rest : List ℕ) → n < 256 ^ w → number w (little_endian w n ++ rest) ≡ some (n, rest)
unfolding number
number-little_endian zero n rest h = ground arith
number-little_endian (suc w) n rest h =
    ground (arith, number-little_endian w (n / 256) rest (omega arith))

pub bytes-append :
    (xs rest : List ℕ) (k : ℕ) → length xs ≡ k → bytes k (xs ++ rest) ≡ some (xs, rest)
unfolding bytes
bytes-append [] rest zero e = refl
bytes-append [] rest (suc k) e = absurd (omega arith)
bytes-append (x ∷ xs) rest zero e = absurd (omega arith)
bytes-append (x ∷ xs) rest (suc k) e = ground (arith, bytes-append xs rest k (omega arith))

abbrev pub DevIdFits : DevId → Type 0
DevIdFits d = (d.major < 2 ^ 32) × (d.minor < 2 ^ 32)

abbrev pub RangeFits : Range → Type 0
RangeFits r = (r.left < 2 ^ 64) × (r.right < 2 ^ 64)

abbrev pub dev_id_bytes : DevId → List ℕ
dev_id_bytes d = little_endian 4 d.major ++ little_endian 4 d.minor

abbrev pub range_bytes : Range → List ℕ
range_bytes r = little_endian 8 r.left ++ little_endian 8 r.right

-- `p` reads `a` off the bytes `bs`, whatever follows them.
pub record Reads {A : Type 0} (p : Parser A) (bs : List ℕ) (a : A) : Type 0 where
  pub at : (rest : List ℕ) → p (bs ++ rest) ≡ some (a, rest)

pub Reads-return : {A : Type 0} (a : A) → Reads (return a) [] a
Reads-return a = record { at = λ rest. refl }

pub Reads-number : (w n : ℕ) → n < 256 ^ w → Reads (number w) (little_endian w n) n
Reads-number w n h = record { at = λ rest. number-little_endian w n rest h }

pub Reads-bytes : (k : ℕ) (xs : List ℕ) → length xs ≡ k → Reads (bytes k) xs xs
Reads-bytes k xs e = record { at = λ rest. bytes-append xs rest k e }

pub Reads-bind :
    {A B : Type 0} (p : Parser A) (f : A → Parser B) (xs ys : List ℕ) (a : A) (b : B)
    → Reads p xs a
    → Reads (f a) ys b
    → Reads (p >>= f) (xs ++ ys) b
Reads-bind p f xs ys a b hp hf = record {
  at = λ rest. ground (arith, append_assoc xs ys rest, hp.at (ys ++ rest), hf.at rest);
}

-- The last step before a `return`.
pub Reads-last :
    {A B : Type 0} (p : Parser A) (f : A → B) (xs : List ℕ) (a : A)
    → Reads p xs a
    → Reads (p >>= λ x. return (f x)) xs (f a)
Reads-last p f xs a hp = record { at = λ rest. ground (arith, hp.at rest) }

pub Reads-dev_id : (d : DevId) → DevIdFits d → Reads dev_id (dev_id_bytes d) d
Reads-dev_id d h =
    Reads-bind (number 4) _ (little_endian 4 d.major) (little_endian 4 d.minor) d.major d
      (Reads-number 4 d.major (omega arith))
      (Reads-last (number 4) _ (little_endian 4 d.minor) d.minor
        (Reads-number 4 d.minor (omega arith)))

pub Reads-range : (r : Range) → RangeFits r → Reads range (range_bytes r) r
Reads-range r h =
    Reads-bind (number 8) _ (little_endian 8 r.left) (little_endian 8 r.right) r.left r
      (Reads-number 8 r.left (omega arith))
      (Reads-last (number 8) _ (little_endian 8 r.right) r.right
        (Reads-number 8 r.right (omega arith)))

pub Reads-many :
    {A : Type 0} (p : Parser A) (f : A → List ℕ) (P : A → Type 0) (k : ℕ) (xs : List A)
    → ((a : A) → P a → Reads p (f a) a)
    → length xs ≡ k
    → All P xs
    → Reads (many k p) (concat_map f xs) xs
unfolding many
Reads-many p f P zero [] h e q = Reads-return []
Reads-many p f P (suc k) [] h e q = absurd (omega arith)
Reads-many p f P zero (x ∷ xs) h e q = absurd (omega arith)
Reads-many p f P (suc k) (x ∷ xs) h e q =
    Reads-bind p _ (f x) (concat_map f xs) x (x ∷ xs) (h x q.0)
      (Reads-last (many k p) _ (concat_map f xs) xs (Reads-many p f P k xs h (omega arith) q.1))

pub whole-Reads :
    {A : Type 0} (p : Parser A) (bs : List ℕ) (a : A) → Reads p bs a → whole p bs ≡ some a
whole-Reads p bs a h = ground (arith, h.at [], append-nil bs)

pub length-concat_map :
    {A : Type 0} (f : A → List ℕ) (k : ℕ) (xs : List A)
    → ((a : A) → length (f a) ≡ k)
    → length (concat_map f xs) ≡ k * length xs
length-concat_map f k [] h = omega arith
length-concat_map f k (x ∷ xs) h =
    omega (arith, length-append (f x) (concat_map f xs), h x, length-concat_map f k xs h)

pub Reads-expect : (c : ℕ) → c < 256 ^ 4 → Reads (expect c) (little_endian 4 c) tt
unfolding expect
Reads-expect c h = record { at = λ rest. ground (arith, number-little_endian 4 c rest) }
