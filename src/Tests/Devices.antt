-- ===== src/Tests/Devices.antt =====
-- Examples for the watcher of a snap store and for the searches among the block devices.
use coriolis_snapshot_agent.Common.{◌≡◌, refl, false, List, [], ◌∷◌, ◌++◌, arith}
use coriolis_snapshot_agent.Errors.{typed, plain, snap_store_overflow, any_of, is}
use coriolis_snapshot_agent.Result.{ok}
use coriolis_snapshot_agent.Watcher.{allocate_storage}
use coriolis_snapshot_agent.Watcher.Messages.{add_file, deleted, overflowed, failed}
use coriolis_snapshot_agent.Watcher.Reader.{one_read, fill_status, reader, Event, proceed, quit}
use coriolis_snapshot_agent.Watcher.Allocation.{Outcome, allocate_storage_accounts}
use coriolis_snapshot_agent.Watcher.Log.{Kept}
use coriolis_snapshot_agent.Watcher.Notices.{
  bytes4, halffill_notice, told, half_fill_reports, overflow_reports, terminate_ends,
}
use coriolis_snapshot_agent.Watcher.Invariant.{reader_keeps}
use coriolis_snapshot_agent.Wire.Buffer.{filled, write, for_each}
use coriolis_snapshot_agent.Wire.{serialize_next_portion, charcmd_overflow, charcmd_terminate}
use coriolis_snapshot_agent.Tests.Samples.{watcher, granting}

allocate_storage_accounts_example :
    Outcome granting 2000 watcher (allocate_storage granting 2000 watcher)
allocate_storage_accounts_example = allocate_storage_accounts granting 2000 watcher

half_fill_reports_example :
    let (r, v) = allocate_storage granting 2000 watcher in
    one_read granting (ok (halffill_notice 5000000000)) watcher
    ≡ (ok proceed, record v { sent = v.sent ++ told 5000000000 v.id r ∷ [] })
half_fill_reports_example = half_fill_reports granting 5000000000 watcher (omega arith)

half_filled :
    (one_read granting (ok (halffill_notice 5000000000)) watcher).1.sent
    ≡ add_file watcher.id "/snapstores/a/1" 2048 5000000000 ∷ []
unfolding one_read allocate_storage serialize_next_portion fill_status filled write for_each
half_filled = refl

overflow_reports_example :
    (one_read granting (ok (bytes4 charcmd_overflow (28 ∷ 0 ∷ []))) watcher ≡ (
      ok proceed,
      record watcher {
        sent = overflowed watcher.id plain ∷ failed watcher.id (typed snap_store_overflow) ∷ [];
      },
    ))
    × (is (typed snap_store_overflow) (any_of snap_store_overflow) ≡ false)
overflow_reports_example = overflow_reports granting (28 ∷ 0 ∷ []) watcher

-- A half fill, and then the end.
abbrev reads : List Event
reads =
    record { read = ok (halffill_notice 10); outside = granting }
    ∷ record { read = ok (bytes4 charcmd_terminate []); outside = granting }
    ∷ []

terminate_ends_example :
    reader (record { read = ok (bytes4 charcmd_terminate []); outside = granting } ∷ reads) watcher
    ≡ (ok quit, record watcher { is_open = false; sent = deleted watcher.id ∷ [] })
terminate_ends_example = terminate_ends granting [] reads watcher

reader_keeps_example : Kept watcher ((reader reads watcher).1)
reader_keeps_example = reader_keeps reads watcher
