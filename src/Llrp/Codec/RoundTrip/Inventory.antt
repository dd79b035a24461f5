-- ===== src/Llrp/Codec/RoundTrip/Inventory.antt =====
-- The parts of `C1G2InventoryCommand`: singulation and the radio mode.
use device_rfid_llrp_go.Prelude.{
  ℕ, ◌*◌, ◌^◌, ◌≤◌, ◌<◌, ◌≡◌, refl, none, List, [], ◌∷◌, ◌++◌, arith, length, ok, ◌>>=◌, IsU16,
  IsU32,
}
use device_rfid_llrp_go.Llrp.Bytes.{be16, be32}
use device_rfid_llrp_go.Llrp.Params.{ParamHeaders, nil, has_enough_bytes, encode_params, is_tv}
use device_rfid_llrp_go.Llrp.ParamTypes.{
  param_c1g2_rf_control, param_c1g2_singulation_control,
  param_c1g2_tag_inventory_state_aware_singulation_action,
}
use device_rfid_llrp_go.Llrp.Fields.{finished, unless_empty, optional, u8, ◌+++◌, maybe}
use device_rfid_llrp_go.Llrp.Fields.Coded.{
  Fits, IfSome, IfSome-map, Coding, IsRead, coding, IsCoded, coding-IsRead, optional_last,
  optional_last,
}
use device_rfid_llrp_go.Llrp.Fields.Sized.{IsWritten-subs, AllSized-maybe}
use device_rfid_llrp_go.Llrp.Fields.Arrays.{two_bits}
use device_rfid_llrp_go.Llrp.Codec.Inventory.{
  C1g2RfControl, c1g2_rf_control_header, unmarshal_c1g2_rf_control,
  C1g2TagInventoryStateAwareSingulationAction,
  c1g2_tag_inventory_state_aware_singulation_action_header,
  unmarshal_c1g2_tag_inventory_state_aware_singulation_action, C1g2SingulationControl,
  c1g2_singulation_control_header, unmarshal_c1g2_singulation_control,
}

abbrev pub IsC1g2RfControl : C1g2RfControl → Type 0
IsC1g2RfControl p = IsU16 p.rf_mode_id × IsU16 p.tari

abbrev pub c1g2_rf_control_coding : Coding C1g2RfControl
c1g2_rf_control_coding =
    coding param_c1g2_rf_control c1g2_rf_control_header unmarshal_c1g2_rf_control

pub c1g2_rf_control_header-IsCoded :
    (p : C1g2RfControl)
    → IsC1g2RfControl p
    → IsCoded param_c1g2_rf_control c1g2_rf_control_header unmarshal_c1g2_rf_control p
unfolding unmarshal_c1g2_rf_control c1g2_rf_control_header has_enough_bytes encode_params is_tv
c1g2_rf_control_header-IsCoded p v = ground arith

pub c1g2_rf_control-IsRead :
    (x : C1g2RfControl) → IsC1g2RfControl x → IsRead c1g2_rf_control_coding x
c1g2_rf_control-IsRead x v =
    coding-IsRead param_c1g2_rf_control c1g2_rf_control_header unmarshal_c1g2_rf_control x
      (c1g2_rf_control_header-IsCoded x v)

abbrev pub IsC1g2TagInventoryStateAwareSingulationAction :
    C1g2TagInventoryStateAwareSingulationAction → Type 0
IsC1g2TagInventoryStateAwareSingulationAction p = (p.session_state < 2) × (p.sl_state < 2)

abbrev pub c1g2_tag_inventory_state_aware_singulation_action_coding :
    Coding C1g2TagInventoryStateAwareSingulationAction
c1g2_tag_inventory_state_aware_singulation_action_coding =
    coding param_c1g2_tag_inventory_state_aware_singulation_action
      c1g2_tag_inventory_state_aware_singulation_action_header
      unmarshal_c1g2_tag_inventory_state_aware_singulation_action

pub c1g2_tag_inventory_state_aware_singulation_action_header-IsCoded :
    (p : C1g2TagInventoryStateAwareSingulationAction)
    → IsC1g2TagInventoryStateAwareSingulationAction p
    → IsCoded param_c1g2_tag_inventory_state_aware_singulation_action
        c1g2_tag_inventory_state_aware_singulation_action_header
        unmarshal_c1g2_tag_inventory_state_aware_singulation_action p
unfolding unmarshal_c1g2_tag_inventory_state_aware_singulation_action
    c1g2_tag_inventory_state_aware_singulation_action_header has_enough_bytes encode_params is_tv
c1g2_tag_inventory_state_aware_singulation_action_header-IsCoded p v =
    ground (arith, two_bits p.session_state p.sl_state (v.0) (v.1))

pub c1g2_tag_inventory_state_aware_singulation_action-IsRead :
    (x : C1g2TagInventoryStateAwareSingulationAction)
    → IsC1g2TagInventoryStateAwareSingulationAction x
    → IsRead c1g2_tag_inventory_state_aware_singulation_action_coding x
c1g2_tag_inventory_state_aware_singulation_action-IsRead x v =
    coding-IsRead param_c1g2_tag_inventory_state_aware_singulation_action
      c1g2_tag_inventory_state_aware_singulation_action_header
      unmarshal_c1g2_tag_inventory_state_aware_singulation_action x
      (c1g2_tag_inventory_state_aware_singulation_action_header-IsCoded x v)

abbrev pub IsC1g2SingulationControl : C1g2SingulationControl → Type 0
IsC1g2SingulationControl p =
    (p.session < 4)
    × IsU16 p.tag_population
    × IsU32 p.tag_transit_time
    × IfSome IsC1g2TagInventoryStateAwareSingulationAction p.inv_aware_action
    × Fits (c1g2_singulation_control_header p)

abbrev pub c1g2_singulation_control_coding : Coding C1g2SingulationControl
c1g2_singulation_control_coding =
    coding param_c1g2_singulation_control c1g2_singulation_control_header
      unmarshal_c1g2_singulation_control

c1g2_singulation_control_read :
    (p : C1g2SingulationControl) (rest : List ℕ)
    → (p.session < 4)
    → IsU16 p.tag_population
    → IsU32 p.tag_transit_time
    → 7
      ≤ length (
          ((u8 (p.session * 2 ^ 6) ∷ []) ++ be16 p.tag_population ++ be32 p.tag_transit_time)
          ++ rest)
    → unless_empty rest
        (record p { inv_aware_action = none })
        (optional
            (c1g2_tag_inventory_state_aware_singulation_action_coding.of_type)
            (c1g2_tag_inventory_state_aware_singulation_action_coding.read)
            rest
          >>= λ (x, behind). finished behind (record p { inv_aware_action = x }))
      ≡ ok p
    → unmarshal_c1g2_singulation_control (
        ((u8 (p.session * 2 ^ 6) ∷ []) ++ be16 p.tag_population ++ be32 p.tag_transit_time) ++ rest)
      ≡ ok p
unfolding unmarshal_c1g2_singulation_control has_enough_bytes
c1g2_singulation_control_read p rest b0 b1 b2 h1 h2 = ground (arith)

pub c1g2_singulation_control_header-IsCoded :
    (p : C1g2SingulationControl)
    → IsC1g2SingulationControl p
    → IsCoded param_c1g2_singulation_control c1g2_singulation_control_header
        unmarshal_c1g2_singulation_control p
unfolding c1g2_singulation_control_header is_tv
c1g2_singulation_control_header-IsCoded p (b0, b1, b2, c0, fits) =
    let i0 : IfSome (IsRead c1g2_tag_inventory_state_aware_singulation_action_coding)
        p.inv_aware_action =
      IfSome-map c1g2_tag_inventory_state_aware_singulation_action-IsRead p.inv_aware_action c0 in
    let k0 : ParamHeaders =
      maybe c1g2_tag_inventory_state_aware_singulation_action_header p.inv_aware_action +++ nil in
    (
      IsWritten-subs param_c1g2_singulation_control 11
          ((u8 (p.session * 2 ^ 6) ∷ []) ++ be16 p.tag_population ++ be32 p.tag_transit_time) _ refl
          (omega arith) refl
          (AllSized-maybe c1g2_tag_inventory_state_aware_singulation_action_coding
            p.inv_aware_action _ i0 tt)
          fits,
      refl,
      c1g2_singulation_control_read p (encode_params k0) b0 b1 b2 (omega (arith)) (
          optional_last c1g2_tag_inventory_state_aware_singulation_action_coding
            (λ o. record p { inv_aware_action = o }) p.inv_aware_action i0),
    )

pub c1g2_singulation_control-IsRead :
    (x : C1g2SingulationControl)
    → IsC1g2SingulationControl x
    → IsRead c1g2_singulation_control_coding x
c1g2_singulation_control-IsRead x v =
    coding-IsRead param_c1g2_singulation_control c1g2_singulation_control_header
      unmarshal_c1g2_singulation_control x (c1g2_singulation_control_header-IsCoded x v)
