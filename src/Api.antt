-- ===== src/Api.antt =====
-- apiserver/controllers/controllers.go: the handlers, each from what the router and the decoder give it
-- to the reply. A handler runs one method of the manager.
pub mod Statuses
use coriolis_snapshot_agent.Common.{
  ℕ, Bool, true, false, ◌||◌, List, Option, none, some, String, ◌==◌, if◌then◌else◌, ◌%◌, ◌^◌,
}
use coriolis_snapshot_agent.Errors.{
  Error, typed, panicked, not_found, unauthorized, bad_request, conflict, cause,
}
use coriolis_snapshot_agent.Result.{Result, ok, err, Action, pure, ◌>>=◌}
use coriolis_snapshot_agent.Bolthold.{Bolthold}
use coriolis_snapshot_agent.Config.{Config}
use coriolis_snapshot_agent.Db.Models.{VolumeSnapshot}
use coriolis_snapshot_agent.System.{Facts, SystemInfo, get_system_info}
use coriolis_snapshot_agent.Manager.{Texts}
use coriolis_snapshot_agent.Manager.State.{Agent, Kernel, View, in_db}
use coriolis_snapshot_agent.Manager.Host.{Host}
use coriolis_snapshot_agent.Manager.Disks.{DiskInfo, list_all_disks, show_tracked_disk}
use coriolis_snapshot_agent.Manager.Locations.{LocationInfo, list_locations}
use coriolis_snapshot_agent.Manager.Stores.Usage.{SnapStoreResponse, show_snap_stores}
use coriolis_snapshot_agent.Manager.Mappings.{
  MappingRequest, MappingResponse, add_mapping, list_mappings,
}
use coriolis_snapshot_agent.Manager.Responses.{
  SnapshotResponse, snapshot_response, show_snapshot, show_snapshots,
}
use coriolis_snapshot_agent.Manager.Request.{DiskRequest, request_snapshot}
use coriolis_snapshot_agent.Manager.Removal.{remove_snapshot}
use coriolis_snapshot_agent.Manager.Changes.{ChangesResponse, get_changed_sectors}
use coriolis_snapshot_agent.Manager.Volumes.{find_volume_snapshot_for_disk}

-- What a handler writes after the status: nothing, a value, or `params.APIErrorResponse` with the text
-- of its field `Error`. The text of the error itself is not modelled.
pub data Body (A : Type 0) : Type 0 where
  empty : Body A
  encoded : A → Body A
  api_error : String → Body A

-- A handler that panics gives no reply: the server ends the connection.
pub data Reply (A : Type 0) : Type 0 where
  replied : ℕ → Body A → Reply A
  aborted : Reply A

module _ {A : Type 0} where
  -- The switch of `handleError`.
  unfoldable pub handle_cause : Error → Reply A
  handle_cause (typed not_found) = replied 404 (api_error "Not Found")
  handle_cause (typed unauthorized) = replied 401 (api_error "Not Authorized")
  handle_cause (typed bad_request) = replied 400 (api_error "Bad Request")
  handle_cause (typed conflict) = replied 409 (api_error "Conflict")
  handle_cause panicked = aborted
  handle_cause e = replied 500 (api_error "Server error")

  unfoldable pub handle_error : Error → Reply A
  unfolding handle_cause cause
  handle_error e = handle_cause (cause e)

  abbrev pub reply_of : Result A → Reply A
  reply_of (ok a) = replied 200 (encoded a)
  reply_of (err e) = handle_error e

  -- `a.mgr.M(…)`, `handleError` on its error, and otherwise `Encode`.
  abbrev pub answer : {S : Type 0} → Action S A → S → Reply A × S
  answer m s = let (r, t) = m s in (reply_of r, t)

  abbrev pub refuse : {S : Type 0} → Reply A → S → Reply A × S
  refuse r s = (r, s)

-- `parseBoolParam`, for the value that `strconv.ParseBool` returns, false beside an error.
unfoldable pub parse_bool_param : (String → Bool) → String → Bool → Bool
parse_bool_param parse_bool arg default_value = if arg == "" then default_value else parse_bool arg

module _ ⦃bolt : Bolthold⦄ (host : Host) (config : Config) (texts : Texts) (kernel : Kernel)
    (view : View) where
  abbrev pub Handler : Type 0 → Type 0
  Handler A = Agent → Reply A × Agent

  unfoldable pub list_disks_handler : (String → Bool) → String → String → Handler (List DiskInfo)
  unfolding parse_bool_param list_all_disks
  list_disks_handler parse_bool include_virtual include_swap = answer (
      in_db (
        list_all_disks host config (parse_bool_param parse_bool include_virtual false)
          (parse_bool_param parse_bool include_swap false)))

  -- A variable of the path that the router does not have is `none`.
  unfoldable pub get_disk_handler : Option String → Handler DiskInfo
  unfolding show_tracked_disk
  get_disk_handler none = refuse (replied 404 empty)
  get_disk_handler (some id) = answer (in_db (show_tracked_disk host config id))

  unfoldable pub list_snap_store_locations : Handler (List LocationInfo)
  unfolding list_locations
  list_snap_store_locations = answer (in_db (list_locations host config))

  unfoldable pub list_snap_store_handler : Handler (List SnapStoreResponse)
  unfolding show_snap_stores
  list_snap_store_handler = answer (show_snap_stores texts kernel)

  -- The request body is what the decoder makes of it.
  unfoldable pub create_snapshot_handler : Result (List DiskRequest) → Handler SnapshotResponse
  unfolding handle_error request_snapshot snapshot_response
  create_snapshot_handler (err e) = refuse (handle_error (typed bad_request))
  create_snapshot_handler (ok qs) = answer (do
    snapshot ← request_snapshot host config texts kernel view qs
    pure (snapshot_response snapshot))

  unfoldable pub list_snapshots_handler : Handler (List SnapshotResponse)
  unfolding show_snapshots
  list_snapshots_handler = answer (in_db show_snapshots)

  unfoldable pub get_snapshot_handler : Option String → Handler SnapshotResponse
  unfolding show_snapshot
  get_snapshot_handler none = refuse (replied 404 empty)
  get_snapshot_handler (some id) = answer (in_db (show_snapshot id))

  abbrev pub without_body : Reply (Unit {0}) → Reply (Unit {0})
  without_body (replied status (encoded a)) = replied status empty
  without_body r = r

  unfoldable pub delete_snapshot_handler : Option String → Handler (Unit {0})
  unfolding remove_snapshot
  delete_snapshot_handler none s = (replied 404 empty, s)
  delete_snapshot_handler (some id) s =
      let (r, t) = answer (remove_snapshot texts kernel id) s in (without_body r, t)

  abbrev pub is_incomplete : MappingRequest → Bool
  is_incomplete param = (param.snap_store_location == "") || (param.tracked_disk == "")

  unfoldable pub create_snap_store_mapping_handler :
      String → Result MappingRequest → Handler MappingResponse
  unfolding handle_error add_mapping
  create_snap_store_mapping_handler new_id (err e) = refuse (handle_error (typed bad_request))
  create_snap_store_mapping_handler new_id (ok param) =
      if is_incomplete param
      then refuse (handle_error (typed bad_request))
      else answer (in_db (add_mapping new_id param))

  unfoldable pub list_snap_store_mappings_handler : Handler (List MappingResponse)
  unfolding list_mappings
  list_snap_store_mappings_handler = answer (in_db list_mappings)

  -- The variables of the path are empty if they are missing; `previous` is the value that
  -- `strconv.ParseUint` returns, also beside an error.
  unfoldable pub get_changed_sectors_handler :
      Result ℕ → String → String → String → ℕ → Handler ChangesResponse
  unfolding get_changed_sectors
  get_changed_sectors_handler block_size snapshot_id disk generation previous =
      if (snapshot_id == "") || (disk == "")
      then refuse (replied 404 empty)
      else answer (
          in_db
            (get_changed_sectors texts block_size snapshot_id disk generation (previous % 2 ^ 32)))

  -- `os.Open(imgPath)`, and then `http.ServeContent`, here the path that is served.
  abbrev pub serve : (String → Result (Unit {0})) → Result VolumeSnapshot → Reply String
  serve open_image (err e) = handle_error e
  serve open_image (ok vol) = elim (open_image vol.snapshot_image.device_path) [
    | ok a ↦ replied 200 (encoded vol.snapshot_image.device_path)
    | err e ↦ replied 500 empty
  ]

  unfoldable pub consume_snapshot_handler :
      (String → Result (Unit {0})) → String → String → Handler String
  unfolding handle_error find_volume_snapshot_for_disk
  consume_snapshot_handler open_image snapshot_id disk s =
      if (snapshot_id == "") || (disk == "")
      then (replied 404 empty, s)
      else (let (r, t) = in_db (find_volume_snapshot_for_disk snapshot_id disk) s in
          (serve open_image r, t))

  -- `NotFoundHandler`
  unfoldable pub not_found_handler : Handler (Unit {0})
  not_found_handler = refuse (replied 404 (api_error "Not found"))

  -- `SystemInfoHandler`
  unfoldable pub system_info_handler :
      {InfoStat VirtualMemoryStat : Type 0}
      → Facts InfoStat VirtualMemoryStat
      → Handler (SystemInfo InfoStat VirtualMemoryStat DiskInfo)
  unfolding get_system_info list_all_disks
  system_info_handler facts =
      answer (in_db (get_system_info facts (list_all_disks host config false false)))
