-- ===== src/Tests/Api.antt =====
-- Examples for the replies of the handlers.
use coriolis_snapshot_agent.Common.{ℕ, ◌≡◌, refl}
use coriolis_snapshot_agent.Errors.{not_found, typed, wrap}
use coriolis_snapshot_agent.Result.{ok}
use coriolis_snapshot_agent.Bolthold.Memory.{memory}
use coriolis_snapshot_agent.Api.{
  replied, api_error, handle_error, create_snap_store_mapping_handler,
}
use coriolis_snapshot_agent.Api.Statuses.{handle_error-wraps, status, title}
use coriolis_snapshot_agent.Tests.Machine.{host, config, texts, kernel, view, blank, with_db}

handle_error-wraps_example :
    handle_error {A = ℕ} (wrap (wrap (typed not_found))) ≡ replied 404 (api_error "Not Found")
unfolding status title
handle_error-wraps_example = handle_error-wraps {A = ℕ} 2 not_found

-- A mapping for a disk that is not tracked: bolthold's error is not one of errors.go.
unknown_disk :
    (create_snap_store_mapping_handler ⦃bolt = memory⦄ host config texts kernel view "m"
      (ok (record { snap_store_location = "/cow"; tracked_disk = "sdz" }))
      (with_db blank)).0
    ≡ replied 500 (api_error "Server error")
unfolding create_snap_store_mapping_handler
unknown_disk = refl
