-- ===== src/Llrp/Codec/InventoryCommands.antt =====
-- `C1G2InventoryCommand`: generated code of pkg/llrp.
use device_rfid_llrp_go.Prelude.{
  ℕ, suc, ◌/◌, ◌^◌, Bool, false, not, Option, none, some, List, [], ◌∷◌, ◌++◌, ◌==◌, if◌then◌else◌,
  length, Outcome, ◌>>=◌, ◌>>◌,
}
use device_rfid_llrp_go.Llrp.Bytes.{slice_from}
use device_rfid_llrp_go.Llrp.Params.{
  ParamHeader, ParamHeaders, header, nil, CodecError, has_enough_bytes,
}
use device_rfid_llrp_go.Llrp.Fields.{
  byte_at, finished, unless_empty, within, Cases, into, group, b2b, ◌+++◌, every, maybe, add_sizes,
}
use device_rfid_llrp_go.Llrp.ParamTypes.{
  param_c1g2_filter, param_c1g2_inventory_command, param_c1g2_rf_control,
  param_c1g2_singulation_control, param_custom,
}
use device_rfid_llrp_go.Llrp.Codec.Identities.{Custom, custom_header, unmarshal_custom}
use device_rfid_llrp_go.Llrp.Codec.Filters.{C1g2Filter, c1g2_filter_header, unmarshal_c1g2_filter}
use device_rfid_llrp_go.Llrp.Codec.Inventory.{
  C1g2RfControl, c1g2_rf_control_header, unmarshal_c1g2_rf_control, C1g2SingulationControl,
  c1g2_singulation_control_header, unmarshal_c1g2_singulation_control,
}

pub record C1g2InventoryCommand : Type 0 where
  pub tag_inventory_state_aware : Bool
  pub filters : List C1g2Filter
  pub rf_control : Option C1g2RfControl
  pub singulation_control : Option C1g2SingulationControl
  pub custom : List Custom

-- `C1G2InventoryCommand.getHeader` and `EncodeFields`
unfoldable pub c1g2_inventory_command_header : C1g2InventoryCommand → ParamHeader
c1g2_inventory_command_header p =
    let subs : ParamHeaders =
      every c1g2_filter_header p.filters
      +++ maybe c1g2_rf_control_header p.rf_control
      +++ maybe c1g2_singulation_control_header p.singulation_control
      +++ every custom_header p.custom
      +++ nil in
    header param_c1g2_inventory_command (add_sizes 5 subs) (b2b p.tag_inventory_state_aware 7 ∷ [])
      subs

unfoldable pub c1g2_inventory_command_group1 : Cases C1g2InventoryCommand
c1g2_inventory_command_group1 pt p =
    if pt == param_c1g2_filter
    then into (within unmarshal_c1g2_filter) (λ x. record p { filters = p.filters ++ (x ∷ []) })
    else none

unfoldable pub c1g2_inventory_command_group2 : Cases C1g2InventoryCommand
c1g2_inventory_command_group2 pt p =
    if pt == param_c1g2_rf_control
    then into (within unmarshal_c1g2_rf_control) (λ x. record p { rf_control = some x })
    else if pt == param_c1g2_singulation_control
    then into (within unmarshal_c1g2_singulation_control)
        (λ x. record p { singulation_control = some x })
    else none

unfoldable pub c1g2_inventory_command_group3 : Cases C1g2InventoryCommand
c1g2_inventory_command_group3 pt p =
    if pt == param_custom
    then into (within unmarshal_custom) (λ x. record p { custom = p.custom ++ (x ∷ []) })
    else none

-- `C1G2InventoryCommand.UnmarshalBinary`
unfoldable pub unmarshal_c1g2_inventory_command : List ℕ → Outcome CodecError C1g2InventoryCommand
unmarshal_c1g2_inventory_command bytes = do
  has_enough_bytes param_c1g2_inventory_command 1 (length bytes) false
  b0 ← byte_at 0 bytes
  rest ← slice_from 1 bytes
  let p : C1g2InventoryCommand = record {
    tag_inventory_state_aware = not (b0 / 2 ^ 7 == 0);
    filters = [];
    rf_control = none;
    singulation_control = none;
    custom = [];
  }
  unless_empty rest p (do
    (p2, rest2) ← group (suc (length rest)) c1g2_inventory_command_group1 p rest
    unless_empty rest2 p2 (do
      (p3, rest3) ← group (suc (length rest2)) c1g2_inventory_command_group2 p2 rest2
      unless_empty rest3 p3 (do
        (p4, rest4) ← group (suc (length rest3)) c1g2_inventory_command_group3 p3 rest3
        finished rest4 p4)))
