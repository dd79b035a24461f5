-- ===== src/Llrp/Codec/InventorySpecs.antt =====
-- `AISpec`, an inventory by some antennas: generated code of pkg/llrp.
use device_rfid_llrp_go.Prelude.{
  ℕ, suc, ◌+◌, ◌*◌, false, none, List, [], ◌∷◌, ◌++◌, ◌==◌, if◌then◌else◌, length, Outcome, ◌>>=◌,
  ◌>>◌,
}
use device_rfid_llrp_go.Llrp.Bytes.{be16, slice_from}
use device_rfid_llrp_go.Llrp.Params.{
  ParamHeader, ParamHeaders, header, nil, CodecError, has_enough_bytes,
}
use device_rfid_llrp_go.Llrp.Fields.{
  byte_at, uint16_at, uint16_array, finished, unless_empty, within, required, Cases, into, group,
  u8, u16, each_be16, ◌+++◌, one, every, add_sizes,
}
use device_rfid_llrp_go.Llrp.ParamTypes.{
  param_ai_spec, param_ai_spec_stop_trigger, param_antenna_configuration, param_custom,
  param_inventory_parameter_spec,
}
use device_rfid_llrp_go.Llrp.Codec.Identities.{Custom, custom_header, unmarshal_custom}
use device_rfid_llrp_go.Llrp.Codec.Antennas.{
  AntennaConfiguration, antenna_configuration_header, unmarshal_antenna_configuration,
}
use device_rfid_llrp_go.Llrp.Codec.StopTriggers.{
  AiSpecStopTrigger, ai_spec_stop_trigger_header, unmarshal_ai_spec_stop_trigger,
}

pub record InventoryParameterSpec : Type 0 where
  pub inventory_parameter_spec_id : ℕ
  pub air_protocol_id : ℕ
  pub antenna_configurations : List AntennaConfiguration
  pub custom : List Custom

-- `InventoryParameterSpec.getHeader` and `EncodeFields`
unfoldable pub inventory_parameter_spec_header : InventoryParameterSpec → ParamHeader
inventory_parameter_spec_header p =
    let subs : ParamHeaders =
      every antenna_configuration_header p.antenna_configurations
      +++ every custom_header p.custom
      +++ nil in
    header param_inventory_parameter_spec (add_sizes 7 subs)
      (be16 p.inventory_parameter_spec_id ++ (u8 p.air_protocol_id ∷ [])) subs

unfoldable pub inventory_parameter_spec_group1 : Cases InventoryParameterSpec
inventory_parameter_spec_group1 pt p =
    if pt == param_antenna_configuration
    then into (within unmarshal_antenna_configuration)
        (λ x. record p { antenna_configurations = p.antenna_configurations ++ (x ∷ []) })
    else if pt == param_custom
    then into (within unmarshal_custom) (λ x. record p { custom = p.custom ++ (x ∷ []) })
    else none

-- `InventoryParameterSpec.UnmarshalBinary`
unfoldable pub unmarshal_inventory_parameter_spec :
    List ℕ → Outcome CodecError InventoryParameterSpec
unmarshal_inventory_parameter_spec bytes = do
  has_enough_bytes param_inventory_parameter_spec 3 (length bytes) false
  inventory_parameter_spec_id ← uint16_at 0 bytes
  air_protocol_id ← byte_at 2 bytes
  rest ← slice_from 3 bytes
  let p : InventoryParameterSpec = record {
    inventory_parameter_spec_id = inventory_parameter_spec_id;
    air_protocol_id = air_protocol_id;
    antenna_configurations = [];
    custom = [];
  }
  unless_empty rest p (do
    (p2, rest2) ← group (suc (length rest)) inventory_parameter_spec_group1 p rest
    finished rest2 p2)

pub record AiSpec : Type 0 where
  pub antenna_ids : List ℕ
  pub stop_trigger : AiSpecStopTrigger
  pub inventory_parameter_specs : List InventoryParameterSpec
  pub custom : List Custom

-- `AISpec.getHeader` and `EncodeFields`
unfoldable pub ai_spec_header : AiSpec → ParamHeader
ai_spec_header p =
    let subs : ParamHeaders =
      one (ai_spec_stop_trigger_header p.stop_trigger)
      +++ every inventory_parameter_spec_header p.inventory_parameter_specs
      +++ every custom_header p.custom
      +++ nil in
    header param_ai_spec (add_sizes (u16 (6 + length p.antenna_ids * 2)) subs)
      (be16 (length p.antenna_ids) ++ each_be16 p.antenna_ids) subs

unfoldable pub ai_spec_group1 : Cases AiSpec
ai_spec_group1 pt p =
    if pt == param_inventory_parameter_spec
    then into (within unmarshal_inventory_parameter_spec)
        (λ x. record p { inventory_parameter_specs = p.inventory_parameter_specs ++ (x ∷ []) })
    else none

unfoldable pub ai_spec_group2 : Cases AiSpec
ai_spec_group2 pt p =
    if pt == param_custom
    then into (within unmarshal_custom) (λ x. record p { custom = p.custom ++ (x ∷ []) })
    else none

-- `AISpec.UnmarshalBinary`
unfoldable pub unmarshal_ai_spec : List ℕ → Outcome CodecError AiSpec
unmarshal_ai_spec bytes = do
  has_enough_bytes param_ai_spec 9 (length bytes) false
  (antenna_ids, rest) ← uint16_array 0 bytes
  has_enough_bytes param_ai_spec_stop_trigger 4 (length rest) false
  (stop_trigger, rest2) ←
      required param_ai_spec_stop_trigger (within unmarshal_ai_spec_stop_trigger) rest
  let p : AiSpec = record {
    antenna_ids = antenna_ids;
    stop_trigger = stop_trigger;
    inventory_parameter_specs = [];
    custom = [];
  }
  (p3, rest3) ← group (suc (length rest2)) ai_spec_group1 p rest2
  unless_empty rest3 p3
      (do (p4, rest4) ← group (suc (length rest3)) ai_spec_group2 p3 rest3; finished rest4 p4)
