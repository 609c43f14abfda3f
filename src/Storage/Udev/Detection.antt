-- ===== src/Storage/Udev/Detection.antt =====
-- internal/storage/udev_monitor.go: which devices `GetUdevDevice` finds, and which it finds too long.
use coriolis_snapshot_agent.Common.{
  ℕ, zero, suc, ◌≡◌, refl, inl, inr, Bool, true, false, List, [], ◌∷◌, String, none, some, eqb, ltb,
  any, arith, Bool-cases,
}
use coriolis_snapshot_agent.Result.{ok, is_ok}
use coriolis_snapshot_agent.Types.{DevId, dev_eq}
use coriolis_snapshot_agent.Storage.Udev.{
  UdevEvent, Devices, load, delete, handle_event, handle_events, poll, get_udev_device,
  max_attempts, DevId, Bool, List, dev_eq, ℕ, some, suc, String, true, false,
}

abbrev pub is_known : DevId → Devices → Bool
is_known key devices = elim (load key devices) [ some d ↦ true | none ↦ false ]

abbrev pub announces : DevId → List UdevEvent → Bool
announces key = any (λ (e : UdevEvent). dev_eq e.devnum key)

load-delete_other :
    (key k : DevId) (devices : Devices)
    → dev_eq k key ≡ false
    → load key (delete k devices) ≡ load key devices
load-delete_other key k [] h = refl
load-delete_other key k ((j, d) ∷ rest) h = ground (arith, load-delete_other key k rest h)

-- What an event is about is known after it, a removal included.
handle_event-known :
    (key : DevId) (e : UdevEvent) (devices : Devices)
    → dev_eq e.devnum key ≡ true
    → is_known key (handle_event e devices) ≡ true
unfolding handle_event
handle_event-known key e devices h = ground (arith, h)

-- Nothing that is known is forgotten.
handle_event-keeps :
    (key : DevId) (e : UdevEvent) (devices : Devices)
    → is_known key devices ≡ true
    → is_known key (handle_event e devices) ≡ true
unfolding handle_event
handle_event-keeps key e devices h = elim (Bool-cases (dev_eq e.devnum key)) [
  | inl t ↦ ground (arith, t)
  | inr f ↦ ground (
    arith,
    f,
    h,
    load-delete_other key e.devnum devices f,
    load-delete_other key e.devnum (delete e.devnum devices) f,
  )
]

pub handle_events-keeps :
    (key : DevId) (es : List UdevEvent) (devices : Devices)
    → is_known key devices ≡ true
    → is_known key (handle_events es devices) ≡ true
unfolding handle_events
handle_events-keeps key [] devices h = h
handle_events-keeps key (e ∷ es) devices h =
    handle_events-keeps key es (handle_event e devices) (handle_event-keeps key e devices h)

pub handle_events-known :
    (key : DevId) (es : List UdevEvent) (devices : Devices)
    → announces key es ≡ true
    → is_known key (handle_events es devices) ≡ true
unfolding handle_events
handle_events-known key [] devices h = absurd (ground (arith, h))
handle_events-known key (e ∷ es) devices h = elim (Bool-cases (dev_eq e.devnum key)) [
  | inl t ↦ handle_events-keeps key es (handle_event e devices) (handle_event-known key e devices t)
  | inr f ↦ handle_events-known key es (handle_event e devices) (ground (arith, h, f))
]

poll-known :
    (key : DevId) (arrivals : ℕ → List UdevEvent) (left : ℕ) (devices : Devices)
    → is_known key devices ≡ true
    → is_ok (poll key arrivals (suc left) devices) ≡ true
unfolding poll
poll-known key arrivals left devices h = ground (arith, h)

poll-announced :
    (key : DevId) (arrivals : ℕ → List UdevEvent) (left n : ℕ) (devices : Devices)
    → announces key (arrivals (suc n)) ≡ true
    → ltb (suc n) left ≡ true
    → is_ok (poll key arrivals left devices) ≡ true
unfolding poll
poll-announced key arrivals zero n devices h lt = absurd (ground (arith, lt))
poll-announced key arrivals (suc left) n devices h lt = elim (Bool-cases (eqb left (suc n))) [
  | inl t ↦
      let same : left ≡ suc n = ground (arith, t) in
      let known : is_known key (handle_events (arrivals (suc n)) devices) ≡ true =
        handle_events-known key (arrivals (suc n)) devices h in
      ground (arith, same, poll-known key arrivals n _ known)
  | inr f ↦ ground (
    arith,
    poll-announced key arrivals left n (handle_events (arrivals left) devices) h
        (ground (arith, lt, f)),
  )
]

-- A device that udev announces while at least one attempt is left is found.
pub get_udev_device-announced :
    (key : DevId) (arrivals : ℕ → List UdevEvent) (n : ℕ) (devices : Devices)
    → announces key (arrivals (suc n)) ≡ true
    → ltb (suc n) max_attempts ≡ true
    → is_ok (get_udev_device key arrivals devices) ≡ true
unfolding get_udev_device
get_udev_device-announced key arrivals n devices h lt =
    poll-announced key arrivals max_attempts n devices h lt

-- A device that udev has announced as removed is found all the same, with an empty status, whatever
-- was known of it before.
pub get_udev_device-removed :
    (key : DevId) (arrivals : ℕ → List UdevEvent) (node : String) (devices : Devices)
    → get_udev_device key arrivals
        (handle_event (record { devnode = node; devnum = key; action = "remove" }) devices)
      ≡ ok (record { device_node = node; device_status = "" })
unfolding get_udev_device poll handle_event
get_udev_device-removed key arrivals node devices = ground (arith)
