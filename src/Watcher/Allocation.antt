-- ===== src/Watcher/Allocation.antt =====
-- worker/snapstore/character_device_watcher.go: `AllocateStorage`, on success and on failure.
use coriolis_snapshot_agent.Common.{
  ℕ, zero, suc, ◌+◌, ◌%◌, ◌^◌, ◌≤◌, ◌≡◌, refl, ap, ◌∙◌, eqb_iff, ◌⊎◌, inl, inr, false, List, [],
  ◌∷◌, ◌++◌, String, some, none, arith, length, eqb, Bool-cases, Option-cases,
}
use coriolis_snapshot_agent.Errors.{
  Error, panicked, plain, fs_exist, fs_not_exist, sentinel, this, is, wrap,
}
use coriolis_snapshot_agent.Errors.Matching.{wraps}
use coriolis_snapshot_agent.Result.{Result, ok, err, Result-cases}
use coriolis_snapshot_agent.Types.{Range, dev_eq→eq}
use coriolis_snapshot_agent.Wire.{serialize_next_portion}
use coriolis_snapshot_agent.Watcher.{
  Watcher, Outside, new_file, restated, give, portion, allocate_storage,
}

-- What is known of a file that was made.
record IsNewFile (out : Outside) (size : ℕ) (w : Watcher) (path : String) (ranges : List Range)
    : Type 0 where
  pub place : path ≡ out.new_file_path w.basedir
  pub extents : out.file_ranges path ≡ ok (ranges, w.snap_device_id)
  pub created : out.create_snap_store_file path size ≡ ok tt
  pub room : (free : ℕ) × (out.bytes_free w.basedir ≡ ok free) × (size ≤ free)

restated-ok : {A : Type 0} (r : Result A) (a : A) → restated r ≡ ok a → r ≡ ok a
restated-ok (ok a) b h = h
restated-ok (err e) b h = absurd (cc)

new_file_ok :
    (out : Outside) (size : ℕ) (w : Watcher) (path : String) (ranges : List Range)
    → new_file out size w ≡ ok (path, ranges)
    → IsNewFile out size w path ranges
unfolding new_file
new_file_ok out size w path ranges h = record {
  place = ground (arith);
  extents = elim (Result-cases (out.file_ranges path)) [
    | inl ((found, dev), e) ↦ ground (arith, e, dev_eq→eq dev w.snap_device_id)
    | inr (x, e) ↦ absurd (ground (arith, e))
  ];
  created = ground (arith);
  room = elim (Result-cases (out.bytes_free w.basedir)) [
    | inl (free, e) ↦ (free, e, ground (arith, e))
    | inr (x, e) ↦ absurd (ground (arith, e))
  ];
}

-- A successful allocation: what the outside answered, what the device was given, and the watcher that
-- is left.
pub record Allocated (out : Outside) (size : ℕ) (w : Watcher) (path : String) (got : ℕ)
    (v : Watcher) : Type 0 where
  pub ranges : List Range
  pub bytes : List ℕ
  pub place : path ≡ out.new_file_path w.basedir
  pub room : (free : ℕ) × (out.bytes_free w.basedir ≡ ok free) × (size ≤ free)
  pub created : out.create_snap_store_file path size ≡ ok tt
  pub extents : out.file_ranges path ≡ ok (ranges, w.snap_device_id)
  pub message : serialize_next_portion (portion w.id ranges) ≡ some bytes
  pub taken : out.write bytes ≡ ok (length bytes)
  pub measured : out.file_size path ≡ ok got
  pub left : v ≡ record w {
    allocated_space = (w.allocated_space + got) % 2 ^ 64;
    written = w.written ++ bytes ∷ [];
  }

module _ (out : Outside) (size : ℕ) (w : Watcher) where
  no_file : (e : Error) → new_file out size w ≡ err e → allocate_storage out size w ≡ (err e, w)
  unfolding allocate_storage
  no_file e p = ground (arith, p)

  module _ (path : String) (ranges : List Range) (p : new_file out size w ≡ ok (path, ranges)) where
    no_message :
        serialize_next_portion (portion w.id ranges) ≡ none
        → allocate_storage out size w ≡ (err panicked, w)
    unfolding allocate_storage give
    no_message q = ground (arith, p, q)

    module _ (bytes : List ℕ) (q : serialize_next_portion (portion w.id ranges) ≡ some bytes) where
      not_taken :
          (e : Error)
          → out.write bytes ≡ err e
          → allocate_storage out size w
            ≡ (err (wrap e), record w { written = w.written ++ bytes ∷ [] })
      unfolding allocate_storage give
      not_taken e t = ground (arith, p, q, t)

      partly_taken :
          (count : ℕ)
          → out.write bytes ≡ ok count
          → eqb count (length bytes) ≡ false
          → allocate_storage out size w
            ≡ (err plain, record w { written = w.written ++ bytes ∷ [] })
      unfolding allocate_storage give
      partly_taken count t c = ground (arith, p, q, t, c)

      module _ (t : out.write bytes ≡ ok (length bytes)) where
        not_measured :
            (e : Error)
            → out.file_size path ≡ err e
            → allocate_storage out size w
              ≡ (err (wrap e), record w { written = w.written ++ bytes ∷ [] })
        unfolding allocate_storage give
        not_measured e m = ground (arith, p, q, t, m)

        all_done :
            (got : ℕ)
            → out.file_size path ≡ ok got
            → allocate_storage out size w ≡ (
              ok (path, got),
              record w {
                allocated_space = (w.allocated_space + got) % 2 ^ 64;
                written = w.written ++ bytes ∷ [];
              },
            )
        unfolding allocate_storage give
        all_done got m = ground (arith, p, q, t, m)

module _ (out : Outside) (size : ℕ) (w : Watcher) where
  -- The two ways in which an allocation may end.
  pub Outcome : Result (String × ℕ) × Watcher → Type 0
  Outcome (r, v) =
      ((path : String) × (got : ℕ) × (r ≡ ok (path, got)) × Allocated out size w path got v)
      ⊎ ((e : Error) × (r ≡ err e) × (v.allocated_space ≡ w.allocated_space) × (v.sent ≡ w.sent))

  pub handed_over :
      (path : String) (ranges : List Range)
      → new_file out size w ≡ ok (path, ranges)
      → (bytes : List ℕ) → serialize_next_portion (portion w.id ranges) ≡ some bytes
      → Outcome (allocate_storage out size w)
  unfolding Outcome
  handed_over path ranges p bytes q =
      let lost : (e : Error)
          → allocate_storage out size w ≡ (err e, record w { written = w.written ++ bytes ∷ [] })
          → Outcome (allocate_storage out size w) =
        λ e c. inr (e, cc (c), cc (c), cc (c)) in
      elim (Result-cases (out.write bytes)) [
        | inr (e, t) ↦ lost _ (not_taken out size w path ranges p bytes q e t)
        | inl (count, t) ↦ elim (Bool-cases (eqb count (length bytes))) [
          | inr c ↦ lost _ (partly_taken out size w path ranges p bytes q count t c)
          | inl c ↦
              let full : out.write bytes ≡ ok (length bytes) =
                t ∙ ap ok (omega (arith, (eqb_iff count (length bytes)).0 c)) in
              elim (Result-cases (out.file_size path)) [
                | inr (e, m) ↦ lost _ (not_measured out size w path ranges p bytes q full e m)
                | inl (got, m) ↦
                    let c = all_done out size w path ranges p bytes q full got m in
                    let file = new_file_ok out size w path ranges p in
                    inl (
                      path,
                      got,
                      cc (c),
                      record {
                        ranges = ranges;
                        bytes = bytes;
                        place = file.place;
                        room = file.room;
                        created = file.created;
                        extents = file.extents;
                        message = q;
                        taken = full;
                        measured = m;
                        left = cc (c);
                      },
                    )
              ]
        ]
      ]

-- `AllocateStorage` succeeds only with a new file in the base directory, that has room for it, whose
-- extents lie on the device of the snap store; the kernel module then took the whole message that
-- carries the extents, and the counter grew by the size of the file. When it fails, the counter and
-- the messages to the manager are as before.
pub allocate_storage_accounts :
    (out : Outside) (size : ℕ) (w : Watcher) → Outcome out size w (allocate_storage out size w)
unfolding Outcome
allocate_storage_accounts out size w = elim (Result-cases (new_file out size w)) [
  | inr (e, p) ↦ let c = no_file out size w e p in inr (e, cc (c), cc (c), cc (c))
  | inl ((path, ranges), p) ↦ elim (Option-cases (serialize_next_portion (portion w.id ranges))) [
    | inl q ↦
        let c = no_message out size w path ranges p q in inr (panicked, cc (c), cc (c), cc (c))
    | inr (bytes, q) ↦ handed_over out size w path ranges p bytes q
  ]
]

is-not_exist : (k : ℕ) → is (wraps k (sentinel fs_not_exist)) (this fs_exist) ≡ false
unfolding is
is-not_exist zero = refl
is-not_exist (suc k) = is-not_exist k

-- When the base directory does not exist, however often that error is wrapped, an allocation fails
-- with it, and whatever `os.MkdirAll` would answer changes nothing.
pub missing_basedir_fails :
    (out : Outside) (mkdir : String → Result (Unit {0})) (size k : ℕ) (w : Watcher)
    → out.stat w.basedir ≡ err (wraps k (sentinel fs_not_exist))
    → allocate_storage (record out { mkdir_all = mkdir }) size w
      ≡ (err (wrap (wraps k (sentinel fs_not_exist))), w)
unfolding allocate_storage
missing_basedir_fails out mkdir size k w h = ground (arith, h, is-not_exist k)
