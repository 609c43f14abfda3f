-- ===== src/Storage/Udev.antt =====
-- internal/storage/udev_monitor.go: the map of the devices that udev has announced, and the search in
-- it. A key "major-minor" is a `DevId`. What arrives while `GetUdevDevice` sleeps is an argument.
pub mod Detection
use coriolis_snapshot_agent.Common.{
  ℕ, zero, suc, Bool, true, false, not, List, [], ◌∷◌, String, Option, none, some, ◌==◌, eqb,
  if◌then◌else◌,
}
use coriolis_snapshot_agent.Errors.{plain}
use coriolis_snapshot_agent.Result.{Result, ok, err}
use coriolis_snapshot_agent.Types.{DevId, dev_eq}

pub record UdevDevice : Type 0 where
  pub device_node : String
  pub device_status : String

pub record UdevEvent : Type 0 where
  pub devnode : String
  pub devnum : DevId
  pub action : String

abbrev pub Devices : Type 0
Devices = List (DevId × UdevDevice)

abbrev pub load : DevId → Devices → Option UdevDevice
load key [] = none
load key ((k, d) ∷ rest) = if dev_eq k key then some d else load key rest

abbrev pub delete : DevId → Devices → Devices
delete key [] = []
delete key ((k, d) ∷ rest) = if dev_eq k key then delete key rest else (k, d) ∷ delete key rest

abbrev pub store : DevId → UdevDevice → Devices → Devices
store key device devices = (key, device) ∷ delete key devices

-- The removal leaves the status that a new `UdevDevice` has.
abbrev pub status_of : String → String
status_of action =
    if action == "add" then "active" else if action == "remove" then "" else "unknown"

-- One round of the loop of `Start`.
unfoldable pub handle_event : UdevEvent → Devices → Devices
handle_event e devices =
    store e.devnum (record { device_node = e.devnode; device_status = status_of e.action })
      (if e.action == "remove" then delete e.devnum devices else devices)

unfoldable pub handle_events : List UdevEvent → Devices → Devices
unfolding handle_event
handle_events [] devices = devices
handle_events (e ∷ es) devices = handle_events es (handle_event e devices)

-- The loop of `GetUdevDevice` with the attempts that are left. The events `arrivals n` come while it
-- sleeps before the `n` last ones.
unfoldable pub poll : DevId → (ℕ → List UdevEvent) → ℕ → Devices → Result UdevDevice
unfolding handle_events
poll key arrivals zero devices = err plain
poll key arrivals (suc left) devices = elim (load key devices) [
  | some d ↦ ok d
  | none ↦ poll key arrivals left (handle_events (arrivals left) devices)
]

abbrev pub max_attempts : ℕ
max_attempts = 60

unfoldable pub get_udev_device : DevId → (ℕ → List UdevEvent) → Devices → Result UdevDevice
unfolding poll
get_udev_device key arrivals devices = poll key arrivals max_attempts devices
