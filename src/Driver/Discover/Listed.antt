-- ===== src/Driver/Discover/Listed.antt =====
-- A registry that is a list of devices, to show that what is asked of one can be had.
use device_rfid_llrp_go.Prelude.{
  ℕ, ◌≡◌, refl, true, false, Option, none, some, List, [], ◌∷◌, arith, if◌then◌else◌,
}
use device_rfid_llrp_go.Driver.Discover.{Device, Registry, IsRegistry, same}
use device_rfid_llrp_go.Driver.Discover.Rounds.{same-eq, same_refl}

unfoldable pub device_by_name : List ℕ → List Device → Option Device
unfolding same
device_by_name n [] = none
device_by_name n (d ∷ ds) = if same d.name n then some d else device_by_name n ds

unfoldable pub update_device : Device → List Device → List Device
unfolding same
update_device d [] = []
update_device d (e ∷ es) =
    let rest = update_device d es in if same e.name d.name then d ∷ rest else e ∷ rest

-- What is found under a name has that name.
device_by_name-name :
    (n : List ℕ) (ds : List Device) (d : Device)
    → device_by_name n ds ≡ some d
    → same d.name n ≡ true
unfolding device_by_name
device_by_name-name n [] d h = ground arith
device_by_name-name n (e ∷ es) d h = ground (arith, device_by_name-name n es d)

device_by_name-update_device :
    (d e : Device) (ds : List Device)
    → device_by_name d.name ds ≡ some e
    → device_by_name d.name (update_device d ds) ≡ some d
unfolding device_by_name update_device
device_by_name-update_device d e [] h = ground arith
device_by_name-update_device d e (x ∷ xs) h =
    ground (arith, device_by_name-update_device d e xs, same_refl d.name)

device_by_name-update_other :
    (d : Device) (n : List ℕ) (ds : List Device)
    → same d.name n ≡ false
    → device_by_name n (update_device d ds) ≡ device_by_name n ds
unfolding device_by_name update_device
device_by_name-update_other d n [] h = refl
device_by_name-update_other d n (e ∷ es) h =
    ground (arith, device_by_name-update_other d n es h, same-eq e.name d.name)

abbrev pub listed : Registry (List Device)
listed = record { device_by_name = device_by_name; update_device = update_device }

pub listed-IsRegistry : IsRegistry listed
listed-IsRegistry = record {
  found_name = λ n s d e. same-eq d.name n (device_by_name-name n s d e);
  updated = device_by_name-update_device;
  others_kept = device_by_name-update_other;
}
