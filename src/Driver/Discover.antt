-- ===== src/Driver/Discover.antt =====
-- `processResultChannel`, `updateExistingDevice` and the skip of `ipWorker`, of internal/driver/discover.go.
-- What is registered is the state, behind the interface of `driver.svc`. Strings are lists of bytes. Of a
-- device only the parts stand here that this code reads or writes. The map of `makeDeviceMap` is a list with
-- an address for each entry, made before the scan, so that a device in it may be out of date.
pub mod Rounds
pub mod Listed
use device_rfid_llrp_go.Prelude.{
  ℕ, zero, suc, Bool, true, false, ◌&&◌, ◌||◌, not, Option, none, some, List, [], ◌∷◌, ◌++◌, ◌==◌,
  ◌≡◌, if◌then◌else◌,
}

-- Equality of strings.
unfoldable pub same : List ℕ → List ℕ → Bool
same [] [] = true
same [] (y ∷ ys) = false
same (x ∷ xs) [] = false
same (x ∷ xs) (y ∷ ys) = x == y && same xs ys

-- `protocolProperties` of "tcp"
pub record Address : Type 0 where
  pub host : List ℕ
  pub port : List ℕ

-- The string `OperatingState`: `contract.Up`, `contract.Down` or any other, such as that of a state unknown.
pub data OperatingState : Type 0 where
  state_up : OperatingState
  state_down : OperatingState
  state_other : List ℕ → OperatingState

pub record Device : Type 0 where
  pub name : List ℕ
  pub tcp : Option Address
  pub operating_state : OperatingState

is_up : OperatingState → Bool
is_up state_up = true
is_up state_down = false
is_up (state_other s) = false

is_down : OperatingState → Bool
is_down state_up = false
is_down state_down = true
is_down (state_other s) = false

-- `discoveryInfo`, without vendor, model and firmware.
pub record DiscoveryInfo : Type 0 where
  pub device_name : List ℕ
  pub address : Address

unfoldable pub same_address : Address → Address → Bool
unfolding same
same_address a b = same a.host b.host && same a.port b.port

-- `driver.svc`, the service of the EdgeX SDK, with updates that succeed; `S` is what it has registered.
pub record Registry (S : Type 0) : Type 0 where
  -- `GetDeviceByName`
  pub device_by_name : List ℕ → S → Option Device
  -- `UpdateDevice`
  pub update_device : Device → S → S

-- What the code relies on: devices are kept by their names, and an update replaces a registered device.
pub record IsRegistry {S : Type 0} (svc : Registry S) : Type 0 where
  pub found_name : (n : List ℕ) (s : S) (d : Device) → svc.device_by_name n s ≡ some d → d.name ≡ n
  pub updated :
      (d e : Device) (s : S)
      → svc.device_by_name d.name s ≡ some e
      → svc.device_by_name d.name (svc.update_device d s) ≡ some d
  pub others_kept :
      (d : Device) (n : List ℕ) (s : S)
      → same d.name n ≡ false
      → svc.device_by_name n (svc.update_device d s) ≡ svc.device_by_name n s

-- `updateExistingDevice`: the device as it is then, and whether it is sent to `UpdateDevice`.
unfoldable pub update_existing_device : DiscoveryInfo → Device → Device × Bool
unfolding same_address is_down
update_existing_device info d =
    let (d1, changed) : Device × Bool =
      if is_down d.operating_state
      then (record d { operating_state = OperatingState.state_up }, true)
      else (d, false) in
    if elim d1.tcp [ none ↦ true | some a ↦ not (same_address info.address a) ]
    then (record d1 { tcp = some info.address; operating_state = OperatingState.state_up }, true)
    else (d1, changed)

-- `host:port`, by which `makeDeviceMap` keeps the devices
unfoldable pub device_at : Address → List (Address × Device) → Option Device
unfolding same_address
device_at a [] = none
device_at a ((b, d) ∷ m) = if same_address b a then some d else device_at a m

-- The skip of `ipWorker`.
unfoldable pub skips : Address → List (Address × Device) → Bool
unfolding device_at is_up
skips a m = elim (device_at a m) [ none ↦ false | some d ↦ is_up d.operating_state ]

module _ {S : Type 0} (svc : Registry S) where
  -- A device that was registered at the address of another loses its address and is down.
  unfoldable pub disable_previous : List (Address × Device) → DiscoveryInfo → S → S
  unfolding device_at
  disable_previous m info s = elim (device_at info.address m) [
    | none ↦ s
    | some old ↦
        if same old.name info.device_name
        then s
        else svc.update_device
            (record old { tcp = none; operating_state = OperatingState.state_down }) s
  ]

  -- One round of `processResultChannel`: what is registered, and the readers to be added.
  unfoldable pub process_result :
      List (Address × Device) → DiscoveryInfo → S → List DiscoveryInfo → S × List DiscoveryInfo
  unfolding disable_previous update_existing_device
  process_result m info s discovered =
      let s1 = disable_previous m info s in
      elim (svc.device_by_name info.device_name s1) [
        | none ↦ (s1, discovered ++ info ∷ [])
        | some d ↦
            let (d1, changed) = update_existing_device info d in
            ((if changed then svc.update_device d1 s1 else s1), discovered)
      ]
