-- ===== src/Driver/Discover/Rounds.antt =====
-- What is registered after a reader was found.
use device_rfid_llrp_go.Prelude.{
  ℕ, ◌≡◌, Option, not, refl, ap, subst, ◌∙◌, true, false, none, some, List, [], ◌∷◌, ◌++◌, arith,
  if◌then◌else◌, Bool-cases, inl, inr, ◌↔◌, Option-cases,
}
use device_rfid_llrp_go.Driver.Discover.{
  Address, OperatingState, state_up, state_down, state_other, Device, DiscoveryInfo, Registry,
  IsRegistry, same, same_address, update_existing_device, device_at, disable_previous,
  process_result,
}

pub same-eq : (a b : List ℕ) → same a b ≡ true → a ≡ b
unfolding same
same-eq [] [] h = refl
same-eq [] (y ∷ ys) h = ground arith
same-eq (x ∷ xs) [] h = ground arith
same-eq (x ∷ xs) (y ∷ ys) h = ground (arith, same-eq xs ys)

pub same_refl : (a : List ℕ) → same a a ≡ true
unfolding same
same_refl [] = refl
same_refl (x ∷ xs) = ground (arith, same_refl xs)

same_address-eq : (a b : Address) → same_address a b ≡ true → a ≡ b
unfolding same_address
same_address-eq a b h = ground (arith, same-eq a.host b.host, same-eq a.port b.port)

same_address_refl : (a : Address) → same_address a a ≡ true
unfolding same_address
same_address_refl a = ground (arith, same_refl a.host, same_refl a.port)

-- The state of a device that was found at an address: up, unless it stood there in a state of its own.
abbrev pub found_state : Option Address → OperatingState → Address → OperatingState
found_state none s a = OperatingState.state_up
found_state (some b) s a = if not (same_address a b) then OperatingState.state_up else elim s [
  | state_up ↦ OperatingState.state_up
  | state_down ↦ OperatingState.state_up
  | state_other t ↦ OperatingState.state_other t
]

abbrev pub found_at : DiscoveryInfo → Device → Device
found_at info d = record {
  name = d.name;
  tcp = some info.address;
  operating_state = found_state d.tcp d.operating_state info.address;
}

existing_result :
    (info : DiscoveryInfo) (n : List ℕ) (t : Option Address) (s : OperatingState)
    → let d : Device = record { name = n; tcp = t; operating_state = s } in
      ((update_existing_device info d).0 ≡ found_at info d)
      × (((update_existing_device info d).1 ≡ false) ↔ (d ≡ found_at info d))
unfolding update_existing_device
existing_result info n none s = ground arith
existing_result info n (some a) s = elim (Bool-cases (same_address info.address a)) [
  | inl y ↦ ground (arith, same_address-eq info.address a y)
  | inr x ↦ ground (arith, same_address_refl a)
]

-- On every branch of `updateExistingDevice` the device is afterwards at the address where it was found,
-- under its own name: up, unless it was at that address already in a state that is neither up nor down,
-- which it keeps. It is left alone exactly if it was so before.
pub update_existing_device_result :
    (info : DiscoveryInfo) (d : Device)
    → ((update_existing_device info d).0 ≡ found_at info d)
      × (((update_existing_device info d).1 ≡ false) ↔ (d ≡ found_at info d))
update_existing_device_result info d = existing_result info d.name d.tcp d.operating_state

same_flip : (a b : List ℕ) → same a b ≡ false → same b a ≡ false
same_flip a b h = ground (arith, same-eq b a, same_refl a)

module _ {S : Type 0} (svc : Registry S) (laws : IsRegistry svc) where
  -- The update, or none, leaves the device as found under its name.
  settled :
      (info : DiscoveryInfo) (ds : S) (d : Device)
      → svc.device_by_name d.name ds ≡ some d
      → svc.device_by_name d.name (
          if (update_existing_device info d).1
          then svc.update_device (update_existing_device info d).0 ds
          else ds)
        ≡ some (found_at info d)
  settled info ds d e =
      let (r, s) = update_existing_device_result info d in
      elim (Bool-cases (update_existing_device info d).1) [
        | inl changed ↦ rw (changed, r) (laws.updated (found_at info d) d ds e)
        | inr same_as_before ↦ rw same_as_before (e ∙ ap some (s.0 same_as_before))
      ]

  -- For a service that keeps devices by their names: if a device of the name is registered once the previous
  -- one at the address is disabled, then after the round of `processResultChannel` that name is registered
  -- at the address where it was found, and nothing is to be added. The device is up, unless it was at that
  -- address already in a state that is neither up nor down, which it keeps.
  pub process_result_known :
      (m : List (Address × Device)) (info : DiscoveryInfo) (ds : S) (d : Device)
      (discovered : List DiscoveryInfo)
      → svc.device_by_name info.device_name (disable_previous svc m info ds) ≡ some d
      → let r = process_result svc m info ds discovered in
        (svc.device_by_name info.device_name r.0
          ≡ some (record {
            name = info.device_name;
            tcp = some info.address;
            operating_state = found_state d.tcp d.operating_state info.address;
          }))
        × (r.1 ≡ discovered)
  unfolding process_result
  process_result_known m info ds d discovered e =
      let ds1 : S = disable_previous svc m info ds in
      let name : d.name ≡ info.device_name = laws.found_name info.device_name ds1 d e in
      let end =
        subst
          (λ (n : List ℕ).
            svc.device_by_name n ds1 ≡ some d
            → svc.device_by_name n (
                if (update_existing_device info d).1
                then svc.update_device (update_existing_device info d).0 ds1
                else ds1)
              ≡ some (record (found_at info d) { name = n }))
          name (settled info ds1 d) e in
      rw (e, process_result) (end, refl)

  -- The update of a found device changes what is registered under no other name.
  other_name :
      (info : DiscoveryInfo) (ds : S) (d : Device) (n : List ℕ)
      → same d.name n ≡ false
      → svc.device_by_name n (
          if (update_existing_device info d).1
          then svc.update_device (update_existing_device info d).0 ds
          else ds)
        ≡ svc.device_by_name n ds
  other_name info ds d n h =
      let (r, s) = update_existing_device_result info d in
      elim (Bool-cases (update_existing_device info d).1) [
        | inl changed ↦ rw (changed, r) (laws.others_kept (found_at info d) n ds h)
        | inr same_as_before ↦ rw same_as_before refl
      ]

  process_result_other :
      (m : List (Address × Device)) (info : DiscoveryInfo) (ds : S)
      (discovered : List DiscoveryInfo) (n : List ℕ)
      → same info.device_name n ≡ false
      → svc.device_by_name n (process_result svc m info ds discovered).0
        ≡ svc.device_by_name n (disable_previous svc m info ds)
  unfolding process_result
  process_result_other m info ds discovered n h =
      let ds1 : S = disable_previous svc m info ds in
      elim (Option-cases (svc.device_by_name info.device_name ds1)) [
        | inl absent ↦ rw (absent, process_result) refl
        | inr (d, e) ↦
            let name : d.name ≡ info.device_name = laws.found_name info.device_name ds1 d e in
            rw (e, process_result)
              (other_name info ds1 d n (ap (λ (k : List ℕ). same k n) name ∙ h))
      ]

  disabled :
      (m : List (Address × Device)) (info : DiscoveryInfo) (ds : S) (old : Device)
      → device_at info.address m ≡ some old
      → same old.name info.device_name ≡ false
      → disable_previous svc m info ds
        ≡ svc.update_device
            (record old { tcp = none; operating_state = OperatingState.state_down })
            ds
  unfolding disable_previous
  disabled m info ds old e h = rw (e, disable_previous, h) refl

  -- For a service that keeps devices by their names: a device of another name, whose entry was made for the
  -- address where a reader is found and which is registered, is down and without an address after the round
  -- of `processResultChannel`.
  pub process_result_previous :
      (m : List (Address × Device)) (info : DiscoveryInfo) (ds : S) (old was : Device)
      (discovered : List DiscoveryInfo)
      → device_at info.address m ≡ some old
      → same old.name info.device_name ≡ false
      → svc.device_by_name old.name ds ≡ some was
      → svc.device_by_name old.name (process_result svc m info ds discovered).0
        ≡ some (record { name = old.name; tcp = none; operating_state = OperatingState.state_down })
  process_result_previous m info ds old was discovered at_address other registered =
      process_result_other m info ds discovered old.name (same_flip old.name info.device_name other)
      ∙ ap (svc.device_by_name old.name) (disabled m info ds old at_address other)
      ∙ laws.updated (record old { tcp = none; operating_state = OperatingState.state_down }) was ds
          registered

  -- If no device of the name is registered, the reader found is to be added behind those found before, and no
  -- registration is made.
  pub process_result_new :
      (m : List (Address × Device)) (info : DiscoveryInfo) (ds : S)
      (discovered : List DiscoveryInfo)
      → svc.device_by_name info.device_name (disable_previous svc m info ds) ≡ none
      → process_result svc m info ds discovered
        ≡ (disable_previous svc m info ds, discovered ++ info ∷ [])
  unfolding process_result
  process_result_new m info ds discovered e = rw (e, process_result) refl
