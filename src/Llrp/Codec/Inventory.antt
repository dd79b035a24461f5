-- ===== src/Llrp/Codec/Inventory.antt =====
-- The parts of `C1G2InventoryCommand`: singulation and the radio mode: generated code of pkg/llrp.
use device_rfid_llrp_go.Prelude.{
  ℕ, ◌*◌, ◌/◌, ◌%◌, ◌^◌, true, false, Option, none, List, [], ◌∷◌, ◌++◌, length, Outcome, ok, ◌>>=◌,
  ◌>>◌, bit_or,
}
use device_rfid_llrp_go.Llrp.Bytes.{be16, be32, slice_from}
use device_rfid_llrp_go.Llrp.Params.{
  ParamHeader, ParamHeaders, header, nil, CodecError, has_enough_bytes,
}
use device_rfid_llrp_go.Llrp.Fields.{
  byte_at, uint16_at, uint32_at, finished, unless_empty, within, optional, u8, ◌+++◌, maybe,
  add_sizes,
}
use device_rfid_llrp_go.Llrp.ParamTypes.{
  param_c1g2_rf_control, param_c1g2_singulation_control,
  param_c1g2_tag_inventory_state_aware_singulation_action,
}

pub record C1g2RfControl : Type 0 where
  pub rf_mode_id : ℕ
  pub tari : ℕ

-- `C1G2RFControl.getHeader` and `EncodeFields`
unfoldable pub c1g2_rf_control_header : C1g2RfControl → ParamHeader
c1g2_rf_control_header p = header param_c1g2_rf_control 8 (be16 p.rf_mode_id ++ be16 p.tari) nil

-- `C1G2RFControl.UnmarshalBinary`
unfoldable pub unmarshal_c1g2_rf_control : List ℕ → Outcome CodecError C1g2RfControl
unmarshal_c1g2_rf_control bytes = do
  has_enough_bytes param_c1g2_rf_control 4 (length bytes) true
  rf_mode_id ← uint16_at 0 bytes
  tari ← uint16_at 2 bytes
  ok (record { rf_mode_id = rf_mode_id; tari = tari })

pub record C1g2TagInventoryStateAwareSingulationAction : Type 0 where
  pub session_state : ℕ
  pub sl_state : ℕ

-- `C1G2TagInventoryStateAwareSingulationAction.getHeader` and `EncodeFields`
unfoldable pub c1g2_tag_inventory_state_aware_singulation_action_header :
    C1g2TagInventoryStateAwareSingulationAction → ParamHeader
c1g2_tag_inventory_state_aware_singulation_action_header p =
    header param_c1g2_tag_inventory_state_aware_singulation_action 5
      (((bit_or (u8 (p.session_state * 2 ^ 7)) (u8 (p.sl_state * 2 ^ 6))) ∷ [])) nil

-- `C1G2TagInventoryStateAwareSingulationAction.UnmarshalBinary`
unfoldable pub unmarshal_c1g2_tag_inventory_state_aware_singulation_action :
    List ℕ → Outcome CodecError C1g2TagInventoryStateAwareSingulationAction
unmarshal_c1g2_tag_inventory_state_aware_singulation_action bytes = do
  has_enough_bytes param_c1g2_tag_inventory_state_aware_singulation_action 1 (length bytes) true
  b0 ← byte_at 0 bytes
  ok (record { session_state = b0 / 2 ^ 7; sl_state = b0 / 2 ^ 6 % 2 })

pub record C1g2SingulationControl : Type 0 where
  pub session : ℕ
  pub tag_population : ℕ
  pub tag_transit_time : ℕ
  pub inv_aware_action : Option C1g2TagInventoryStateAwareSingulationAction

-- `C1G2SingulationControl.getHeader` and `EncodeFields`
unfoldable pub c1g2_singulation_control_header : C1g2SingulationControl → ParamHeader
c1g2_singulation_control_header p =
    let subs : ParamHeaders =
      maybe c1g2_tag_inventory_state_aware_singulation_action_header p.inv_aware_action +++ nil in
    header param_c1g2_singulation_control (add_sizes 11 subs)
      ((u8 (p.session * 2 ^ 6) ∷ []) ++ be16 p.tag_population ++ be32 p.tag_transit_time) subs

-- `C1G2SingulationControl.UnmarshalBinary`
unfoldable pub unmarshal_c1g2_singulation_control :
    List ℕ → Outcome CodecError C1g2SingulationControl
unmarshal_c1g2_singulation_control bytes = do
  has_enough_bytes param_c1g2_singulation_control 7 (length bytes) false
  b0 ← byte_at 0 bytes
  tag_population ← uint16_at 1 bytes
  tag_transit_time ← uint32_at 3 bytes
  rest ← slice_from 7 bytes
  let p : C1g2SingulationControl = record {
    session = b0 / 2 ^ 6;
    tag_population = tag_population;
    tag_transit_time = tag_transit_time;
    inv_aware_action = none;
  }
  unless_empty rest p (do
    (inv_aware_action, rest2) ←
        optional param_c1g2_tag_inventory_state_aware_singulation_action
          (within unmarshal_c1g2_tag_inventory_state_aware_singulation_action) rest
    let p_inv_aware_action : C1g2SingulationControl = record p {
      inv_aware_action = inv_aware_action;
    }
    finished rest2 p_inv_aware_action)
