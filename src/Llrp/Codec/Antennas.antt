-- ===== src/Llrp/Codec/Antennas.antt =====
-- Antennas, ports and other parts of a configuration: generated code of pkg/llrp.
use device_rfid_llrp_go.Prelude.{
  ℕ, suc, ◌+◌, ◌/◌, ◌^◌, Bool, true, false, not, Option, none, some, List, [], ◌∷◌, ◌++◌, ◌==◌,
  if◌then◌else◌, length, Outcome, ok, ◌>>=◌, ◌>>◌,
}
use device_rfid_llrp_go.Llrp.Bytes.{be16, be32, uint16, slice_from}
use device_rfid_llrp_go.Llrp.Params.{
  ParamHeader, ParamHeaders, header, nil, CodecError, has_enough_bytes,
}
use device_rfid_llrp_go.Llrp.Fields.{
  byte_at, uint16_at, uint32_at, byte_array, finished, unless_empty, within, beyond, Cases, into,
  group, u8, u16, b2b, ◌+++◌, every, maybe, add_sizes,
}
use device_rfid_llrp_go.Llrp.ParamTypes.{
  param_antenna_configuration, param_antenna_properties, param_c1g2_inventory_command, param_custom,
  param_gpi_port_current_state, param_gpo_write_data, param_identification, param_keep_alive_spec,
  param_rf_receiver, param_rf_transmitter,
}
use device_rfid_llrp_go.Llrp.Codec.Scalars.{rf_receiver_header}
use device_rfid_llrp_go.Llrp.Codec.Identities.{Custom, custom_header, unmarshal_custom}
use device_rfid_llrp_go.Llrp.Codec.InventoryCommands.{
  C1g2InventoryCommand, c1g2_inventory_command_header, unmarshal_c1g2_inventory_command,
}

pub record AntennaProperties : Type 0 where
  pub antenna_connected : Bool
  pub antenna_id : ℕ
  pub antenna_gain : ℕ

-- `AntennaProperties.getHeader` and `EncodeFields`
unfoldable pub antenna_properties_header : AntennaProperties → ParamHeader
antenna_properties_header p =
    header param_antenna_properties 9
      ((b2b p.antenna_connected 7 ∷ []) ++ be16 p.antenna_id ++ be16 p.antenna_gain) nil

-- `AntennaProperties.UnmarshalBinary`
unfoldable pub unmarshal_antenna_properties : List ℕ → Outcome CodecError AntennaProperties
unmarshal_antenna_properties bytes = do
  has_enough_bytes param_antenna_properties 5 (length bytes) true
  b0 ← byte_at 0 bytes
  antenna_id ← uint16_at 1 bytes
  antenna_gain ← uint16_at 3 bytes
  ok (record {
    antenna_connected = not (b0 / 2 ^ 7 == 0);
    antenna_id = antenna_id;
    antenna_gain = antenna_gain;
  })

pub record RfTransmitter : Type 0 where
  pub hop_table_id : ℕ
  pub channel_index : ℕ
  pub transmit_power_index : ℕ

-- `RFTransmitter.getHeader` and `EncodeFields`
unfoldable pub rf_transmitter_header : RfTransmitter → ParamHeader
rf_transmitter_header p =
    header param_rf_transmitter 10
      (be16 p.hop_table_id ++ be16 p.channel_index ++ be16 p.transmit_power_index) nil

-- `RFTransmitter.UnmarshalBinary`
unfoldable pub unmarshal_rf_transmitter : List ℕ → Outcome CodecError RfTransmitter
unmarshal_rf_transmitter bytes = do
  has_enough_bytes param_rf_transmitter 6 (length bytes) true
  hop_table_id ← uint16_at 0 bytes
  channel_index ← uint16_at 2 bytes
  transmit_power_index ← uint16_at 4 bytes
  ok (record {
    hop_table_id = hop_table_id;
    channel_index = channel_index;
    transmit_power_index = transmit_power_index;
  })

pub record AntennaConfiguration : Type 0 where
  pub antenna_id : ℕ
  pub rf_receiver : Option ℕ
  pub rf_transmitter : Option RfTransmitter
  pub c1g2_inventory_command : Option C1g2InventoryCommand
  pub custom : List Custom

-- `AntennaConfiguration.getHeader` and `EncodeFields`
unfoldable pub antenna_configuration_header : AntennaConfiguration → ParamHeader
antenna_configuration_header p =
    let subs : ParamHeaders =
      maybe rf_receiver_header p.rf_receiver
      +++ maybe rf_transmitter_header p.rf_transmitter
      +++ maybe c1g2_inventory_command_header p.c1g2_inventory_command
      +++ every custom_header p.custom
      +++ nil in
    header param_antenna_configuration (add_sizes 6 subs) (be16 p.antenna_id) subs

unfoldable pub antenna_configuration_group1 : Cases AntennaConfiguration
antenna_configuration_group1 pt p =
    if pt == param_rf_receiver
    then into (beyond uint16) (λ x. record p { rf_receiver = some x })
    else if pt == param_rf_transmitter
    then into (within unmarshal_rf_transmitter) (λ x. record p { rf_transmitter = some x })
    else if pt == param_c1g2_inventory_command
    then into (within unmarshal_c1g2_inventory_command)
        (λ x. record p { c1g2_inventory_command = some x })
    else none

unfoldable pub antenna_configuration_group2 : Cases AntennaConfiguration
antenna_configuration_group2 pt p =
    if pt == param_custom
    then into (within unmarshal_custom) (λ x. record p { custom = p.custom ++ (x ∷ []) })
    else none

-- `AntennaConfiguration.UnmarshalBinary`
unfoldable pub unmarshal_antenna_configuration : List ℕ → Outcome CodecError AntennaConfiguration
unmarshal_antenna_configuration bytes = do
  has_enough_bytes param_antenna_configuration 2 (length bytes) false
  antenna_id ← uint16_at 0 bytes
  rest ← slice_from 2 bytes
  let p : AntennaConfiguration = record {
    antenna_id = antenna_id;
    rf_receiver = none;
    rf_transmitter = none;
    c1g2_inventory_command = none;
    custom = [];
  }
  unless_empty rest p (do
    (p2, rest2) ← group (suc (length rest)) antenna_configuration_group1 p rest
    unless_empty rest2 p2 (do
      (p3, rest3) ← group (suc (length rest2)) antenna_configuration_group2 p2 rest2
      finished rest3 p3))

pub record GpiPortCurrentState : Type 0 where
  pub port : ℕ
  pub enabled : Bool
  pub state : ℕ

-- `GPIPortCurrentState.getHeader` and `EncodeFields`
unfoldable pub gpi_port_current_state_header : GpiPortCurrentState → ParamHeader
gpi_port_current_state_header p =
    header param_gpi_port_current_state 8 (be16 p.port ++ (b2b p.enabled 7 ∷ u8 p.state ∷ [])) nil

-- `GPIPortCurrentState.UnmarshalBinary`
unfoldable pub unmarshal_gpi_port_current_state : List ℕ → Outcome CodecError GpiPortCurrentState
unmarshal_gpi_port_current_state bytes = do
  has_enough_bytes param_gpi_port_current_state 4 (length bytes) true
  port ← uint16_at 0 bytes
  b2 ← byte_at 2 bytes
  state ← byte_at 3 bytes
  ok (record { port = port; enabled = not (b2 / 2 ^ 7 == 0); state = state })

pub record GpoWriteData : Type 0 where
  pub port : ℕ
  pub words : Bool

-- `GPOWriteData.getHeader` and `EncodeFields`
unfoldable pub gpo_write_data_header : GpoWriteData → ParamHeader
gpo_write_data_header p = header param_gpo_write_data 7 (be16 p.port ++ (b2b p.words 7 ∷ [])) nil

-- `GPOWriteData.UnmarshalBinary`
unfoldable pub unmarshal_gpo_write_data : List ℕ → Outcome CodecError GpoWriteData
unmarshal_gpo_write_data bytes = do
  has_enough_bytes param_gpo_write_data 3 (length bytes) true
  port ← uint16_at 0 bytes
  b2 ← byte_at 2 bytes
  ok (record { port = port; words = not (b2 / 2 ^ 7 == 0) })

pub record KeepAliveSpec : Type 0 where
  pub trigger : ℕ
  pub interval : ℕ

-- `KeepAliveSpec.getHeader` and `EncodeFields`
unfoldable pub keep_alive_spec_header : KeepAliveSpec → ParamHeader
keep_alive_spec_header p =
    header param_keep_alive_spec 9 ((u8 p.trigger ∷ []) ++ be32 p.interval) nil

-- `KeepAliveSpec.UnmarshalBinary`
unfoldable pub unmarshal_keep_alive_spec : List ℕ → Outcome CodecError KeepAliveSpec
unmarshal_keep_alive_spec bytes = do
  has_enough_bytes param_keep_alive_spec 5 (length bytes) true
  trigger ← byte_at 0 bytes
  interval ← uint32_at 1 bytes
  ok (record { trigger = trigger; interval = interval })

pub record Identification : Type 0 where
  pub id_type : ℕ
  pub reader_id : List ℕ

-- `Identification.getHeader` and `EncodeFields`
unfoldable pub identification_header : Identification → ParamHeader
identification_header p =
    header param_identification (u16 (7 + length p.reader_id))
      ((u8 p.id_type ∷ []) ++ be16 (length p.reader_id) ++ p.reader_id) nil

-- `Identification.UnmarshalBinary`
unfoldable pub unmarshal_identification : List ℕ → Outcome CodecError Identification
unmarshal_identification bytes = do
  has_enough_bytes param_identification 3 (length bytes) false
  id_type ← byte_at 0 bytes
  (reader_id, rest) ← byte_array 1 bytes
  finished rest (record { id_type = id_type; reader_id = reader_id })
