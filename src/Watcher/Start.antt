-- ===== src/Watcher/Start.antt =====
-- worker/snapstore/character_device_watcher.go: `NewSnapStoreCharacterDeviceWatcher` and `Start`. The
-- reader that `Start` sets going is in Watcher/Reader.
use coriolis_snapshot_agent.Common.{ℕ, List, [], String, true}
use coriolis_snapshot_agent.Result.{Result, ok, Action, wrapped, wrapping}
use coriolis_snapshot_agent.Result.Plain.{◌>>◌}
use coriolis_snapshot_agent.Types.{DevId}
use coriolis_snapshot_agent.Watcher.{Watcher, Outside, create}

-- `common.CreateSnapStoreParams`
pub record CreateSnapStoreParams : Type 0 where
  pub id : List ℕ
  pub base_dir : String
  pub snap_device_id : DevId
  pub device_id : DevId
  pub snap_store_file_size : ℕ

abbrev pub fresh : CreateSnapStoreParams → Watcher
fresh param = record {
  id = param.id;
  snap_store_file_size = param.snap_store_file_size;
  dev_id = param.device_id;
  snap_device_id = param.snap_device_id;
  basedir = param.base_dir;
  allocated_space = 0;
  is_open = true;
  written = [];
  sent = [];
}

unfoldable pub start : Outside → Action Watcher (Unit {0})
unfolding create
start out = wrapping (create out)

-- The watcher, for the answer of `os.OpenFile` on the device.
unfoldable pub new_watcher : Result (Unit {0}) → Outside → CreateSnapStoreParams → Result Watcher
unfolding start
new_watcher open_device out param = do
  wrapped open_device
  let (done, w) = start out (fresh param)
  wrapped done
  ok w
