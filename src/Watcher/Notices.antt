-- ===== src/Watcher/Notices.antt =====
-- worker/snapstore/character_device_watcher.go: what the watcher does with each notice of the kernel
-- module, from the bytes that are read to the messages that are sent.
use Prim.Native.Nat.{bit_or}
use coriolis_snapshot_agent.Common.{
  ℕ, ◌+◌, ◌*◌, ◌/◌, ◌%◌, ◌^◌, ◌<◌, ◌≡◌, refl, ap, ◌∙◌, inl, inr, false, List, replicate, [], ◌∷◌,
  ◌++◌, String, arith,
}
use coriolis_snapshot_agent.Common.Bits.{bit_or-shift}
use coriolis_snapshot_agent.Errors.{Error, wrap, typed, plain, snap_store_overflow, any_of, is}
use coriolis_snapshot_agent.Result.{Result, ok, err, Result-cases}
use coriolis_snapshot_agent.Wire.{charcmd_halffill, charcmd_overflow, charcmd_terminate}
use coriolis_snapshot_agent.Watcher.{Watcher, Outside, allocate_storage, removed, send}
use coriolis_snapshot_agent.Watcher.Messages.{Message, add_file, deleted, overflowed, failed}
use coriolis_snapshot_agent.Watcher.Reader.{
  uint32, fill_status, half_fill_handler, on_command, one_read, report, report_err, proceed, quit,
  Event, reader,
}

-- A command and what follows it, as the kernel module writes them.
abbrev pub bytes4 : ℕ → List ℕ → List ℕ
bytes4 n rest = n % 256 ∷ n / 256 % 256 ∷ n / 256 / 256 % 256 ∷ n / 256 / 256 / 256 % 256 ∷ rest

uint32-bytes4 : (n : ℕ) (rest : List ℕ) → n < 2 ^ 32 → uint32 (bytes4 n rest) ≡ n
uint32-bytes4 n rest h = omega arith

fill_status_lem : (lo hi : ℕ) → lo < 2 ^ 32 → hi < 2 ^ 32 → fill_status lo hi ≡ hi * 2 ^ 32 + lo
unfolding fill_status
fill_status_lem lo hi h k = ap (λ (t : ℕ). bit_or t lo) (omega arith) ∙ bit_or-shift 32 hi lo h

-- The notice that `n` bytes are filled, in two halves, the lower one first.
abbrev pub halffill_notice : ℕ → List ℕ
halffill_notice n = bytes4 charcmd_halffill (bytes4 (n % 2 ^ 32) (bytes4 (n / 2 ^ 32) []))

-- What the handler makes of the two halves.
halves :
    (n : ℕ)
    → n < 2 ^ 64
    → fill_status
        (uint32 (bytes4 (n % 2 ^ 32) (bytes4 (n / 2 ^ 32) (replicate 20 0))))
        (uint32 (bytes4 (n / 2 ^ 32) (replicate 20 0)))
      ≡ n
halves n h = omega (
  arith,
  ap (λ (t : ℕ). fill_status t (uint32 (bytes4 (n / 2 ^ 32) (replicate 20 0))))
      (uint32-bytes4 (n % 2 ^ 32) (bytes4 (n / 2 ^ 32) (replicate 20 0)) (omega arith)),
  ap (λ (t : ℕ). fill_status (n % 2 ^ 32) t)
      (uint32-bytes4 (n / 2 ^ 32) (replicate 20 0) (omega arith)),
  fill_status_lem (n % 2 ^ 32) (n / 2 ^ 32) (omega arith) (omega arith),
)

module _ (out : Outside) (n : ℕ) (w v : Watcher) where
  filled_ok :
      (path : String) (got : ℕ)
      → n < 2 ^ 64
      → allocate_storage out w.snap_store_file_size w ≡ (ok (path, got), v)
      → one_read out (ok (halffill_notice n)) w
        ≡ (ok proceed, record v { sent = v.sent ++ add_file v.id path got n ∷ [] })
  unfolding one_read on_command half_fill_handler report_err send
  filled_ok path got h p = ground (arith, p, halves n h)

  filled_err :
      (e : Error)
      → allocate_storage out w.snap_store_file_size w ≡ (err e, v)
      → one_read out (ok (halffill_notice n)) w
        ≡ (ok proceed, record v { sent = v.sent ++ failed v.id (wrap e) ∷ [] })
  unfolding one_read on_command half_fill_handler report report_err send
  filled_err e p = ground (arith, p)

-- What the manager is told of a half fill.
pub told : ℕ → List ℕ → Result (String × ℕ) → Message
told n id (ok (path, got)) = add_file id path got n
told n id (err e) = failed id (wrap e)

-- When the kernel module writes that `n` bytes are filled, the watcher allocates a file of the size
-- that the snap store was created with, and whether that succeeds or fails it goes on and sends the
-- manager exactly one message: the new file with the fill status `n`, or the failure.
pub half_fill_reports :
    (out : Outside) (n : ℕ) (w : Watcher)
    → n < 2 ^ 64
    → let (r, v) = allocate_storage out w.snap_store_file_size w in
      one_read out (ok (halffill_notice n)) w
      ≡ (ok proceed, record v { sent = v.sent ++ told n v.id r ∷ [] })
unfolding told
half_fill_reports out n w h =
    let done = allocate_storage out w.snap_store_file_size w in
    elim (Result-cases (done.0)) [
      | inl ((path, got), e) ↦ rw e (filled_ok out n w (done.1) path got h (cc (e)))
      | inr (e, p) ↦ rw p (filled_err out n w (done.1) e (cc (p)))
    ]

-- However the body of an overflow notice reads, the watcher goes on and sends two messages: the
-- overflow, and the failure of its own handler, which `errors.Is` does not take for an overflow.
pub overflow_reports :
    (out : Outside) (body : List ℕ) (w : Watcher)
    → (one_read out (ok (bytes4 charcmd_overflow body)) w ≡ (
      ok proceed,
      record w {
        sent =
            (w.sent ++ overflowed w.id plain ∷ []) ++ failed w.id (typed snap_store_overflow) ∷ [];
      },
    ))
      × (is (typed snap_store_overflow) (any_of snap_store_overflow) ≡ false)
unfolding one_read on_command report_err report send is
overflow_reports out body w = (ground (arith), refl)

-- A terminate notice ends the loop, whatever could be read after it. The device is then closed, and
-- one message was sent: that the files are deleted, or why they could not be.
pub terminate_ends :
    (out : Outside) (body : List ℕ) (es : List Event) (w : Watcher)
    → reader (record { read = ok (bytes4 charcmd_terminate body); outside = out } ∷ es) w ≡ (
      ok quit,
      record w {
        is_open = false;
        sent =
            w.sent
            ++ elim (removed (out.remove_all w.basedir)) [
              | ok a ↦ deleted w.id
              | err e ↦ failed w.id e
            ]
              ∷ [];
      },
    )
unfolding reader one_read on_command report_err report send
terminate_ends out body es w = elim (Result-cases (removed (out.remove_all w.basedir))) [
  | inl (a, e) ↦ ground (arith, e)
  | inr (e, p) ↦ ground (arith, p)
]
