-- ===== src/Watcher/Reader.antt =====
-- worker/snapstore/character_device_watcher.go: `charDeviceReader` and the handlers it calls.
use Prim.Native.Nat.{bit_or}
use coriolis_snapshot_agent.Common.{
  ℕ, ◌+◌, ◌*◌, ◌%◌, ◌^◌, false, List, [], ◌∷◌, ◌++◌, ltb, eqb, if◌then◌else◌, length, take, drop,
  replicate,
}
use coriolis_snapshot_agent.Errors.{Error, typed, plain, snap_store_overflow, os_closed, this, is}
use coriolis_snapshot_agent.Result.{
  Result, ok, err, Action, pure, raise, gets, attempt, wrapping, modify, ◌>>=◌, ◌>>◌,
}
use coriolis_snapshot_agent.Wire.{
  charcmd_acknowledge, charcmd_invalid, charcmd_halffill, charcmd_overflow, charcmd_terminate,
}
use coriolis_snapshot_agent.Watcher.{
  Watcher, Outside, send, allocate_storage, remove_snap_store_files,
}
use coriolis_snapshot_agent.Watcher.Messages.{add_file, overflowed, failed}

-- `binary.LittleEndian.Uint32`, of at least four bytes.
abbrev pub uint32 : List ℕ → ℕ
uint32 (a ∷ b ∷ c ∷ d ∷ rest) = a + 256 * (b + 256 * (c + 256 * d))
uint32 bytes = 0

-- `uint64(hi)<<32 | uint64(lo)`
unfoldable pub fill_status : ℕ → ℕ → ℕ
fill_status lo hi = bit_or (hi * 2 ^ 32 % 2 ^ 64) lo

unfoldable pub half_fill_handler : Outside → List ℕ → Action Watcher (Unit {0})
half_fill_handler out msg = do
  limit ← gets (λ (w : Watcher). w.snap_store_file_size)
  (path, size) ← wrapping (allocate_storage out limit)
  let fill = fill_status (uint32 msg) (uint32 (drop 4 msg))
  send (λ id. add_file id path size fill)

-- It always fails.
unfoldable pub overflow_handler : Action Watcher (Unit {0})
unfolding send
overflow_handler = do send (λ id. overflowed id plain); raise (typed snap_store_overflow)

-- A failed handler is reported with an `ErrorMessage`.
unfoldable pub report : Error → Action Watcher (Unit {0})
unfolding send
report e = send (λ id. failed id e)

unfoldable pub report_err : Result (Unit {0}) → Action Watcher (Unit {0})
unfolding report
report_err (ok a) = pure tt
report_err (err e) = report e

abbrev pub close : Action Watcher (Unit {0})
close = modify (λ (w : Watcher). record w { is_open = false })

-- What a round of the loop does next.
pub data Next : Type 0 where
  proceed quit : Next

-- The `switch` on a buffer of 32 bytes.
unfoldable pub on_command : Outside → ℕ → List ℕ → Action Watcher Next
unfolding half_fill_handler overflow_handler remove_snap_store_files report_err
on_command out command body =
    if eqb command charcmd_acknowledge
    then (if eqb (uint32 body) 0 then pure proceed else do close; pure quit)
    else if eqb command charcmd_invalid
    then pure proceed
    else if eqb command charcmd_halffill
    then (do done ← attempt (half_fill_handler out body); report_err done; pure proceed)
    else if eqb command charcmd_overflow
    then (do done ← attempt overflow_handler; report_err done; pure proceed)
    else if eqb command charcmd_terminate
    then (do done ← attempt (remove_snap_store_files out); report_err done; close; pure quit)
    else pure proceed

-- `buff`, after a read of these bytes into 32 zeros.
abbrev pub buffer : List ℕ → List ℕ
buffer bytes = take 32 (bytes ++ replicate 32 0)

unfoldable pub one_read : Outside → Result (List ℕ) → Action Watcher Next
unfolding on_command report
one_read out (err e) = if is e (this os_closed) then pure quit else do report e; close; pure quit
one_read out (ok bytes) =
    if ltb (length bytes) 4
    then pure proceed
    else on_command out (uint32 (buffer bytes)) (drop 4 (buffer bytes))

-- What one `Read` returns, and what the outside answers until the next one.
pub record Event : Type 0 where
  pub read : Result (List ℕ)
  pub outside : Outside

abbrev pub go_on : Next → Action Watcher Next → Action Watcher Next
go_on proceed rest = rest
go_on quit rest = pure quit

-- The loop, over the reads that there are: it waits for the next one, or it has returned.
unfoldable pub reader : List Event → Action Watcher Next
unfolding one_read
reader [] = pure proceed
reader (e ∷ es) = do next ← one_read e.outside e.read; go_on next (reader es)
