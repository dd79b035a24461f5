-- ===== src/Llrp/Codec/Capabilities.antt =====
-- What a reader can do: `GeneralDeviceCapabilities`, `LLRPCapabilities`: generated code of pkg/llrp.
use device_rfid_llrp_go.Prelude.{
  ℕ, suc, ◌+◌, ◌/◌, ◌^◌, Bool, true, false, not, Option, none, List, [], ◌∷◌, ◌++◌, ◌==◌,
  if◌then◌else◌, length, Outcome, ok, ◌>>=◌, ◌>>◌,
}
use device_rfid_llrp_go.Llrp.Bytes.{be16, be32, uint16}
use device_rfid_llrp_go.Llrp.Params.{
  ParamHeader, ParamHeaders, header, nil, CodecError, has_enough_bytes,
}
use device_rfid_llrp_go.Llrp.Fields.{
  byte_at, uint16_at, uint32_at, has_bit, byte_array, finished, unless_empty, within, beyond,
  required, optional, Cases, into, group, u16, b2b, ◌+++◌, one, every, maybe, add_sizes,
}
use device_rfid_llrp_go.Llrp.ParamTypes.{
  param_c1g2_llrp_capabilities, param_general_device_capabilities, param_gpio_capabilities,
  param_llrp_capabilities, param_maximum_receive_sensitivity, param_per_antenna_air_protocol,
  param_per_antenna_receive_sensitivity_range, param_receive_sensitivity_table_entry,
}
use device_rfid_llrp_go.Llrp.Codec.Scalars.{maximum_receive_sensitivity_header}
use device_rfid_llrp_go.Llrp.Codec.Tables.{
  ReceiveSensitivityTableEntry, receive_sensitivity_table_entry_header,
  unmarshal_receive_sensitivity_table_entry, PerAntennaAirProtocol, per_antenna_air_protocol_header,
  unmarshal_per_antenna_air_protocol, GpioCapabilities, zero_gpio_capabilities,
  gpio_capabilities_header, unmarshal_gpio_capabilities, PerAntennaReceiveSensitivityRange,
  per_antenna_receive_sensitivity_range_header, unmarshal_per_antenna_receive_sensitivity_range,
}

pub record LlrpCapabilities : Type 0 where
  pub can_do_rf_survey : Bool
  pub can_report_buffer_fill_warning : Bool
  pub supports_client_request_op_spec : Bool
  pub can_do_tag_inventory_state_aware_singulation : Bool
  pub supports_events_and_report_holding : Bool
  pub max_priority_level_supported : ℕ
  pub client_requested_op_spec_timeout : ℕ
  pub max_ro_specs : ℕ
  pub max_specs_per_ro_spec : ℕ
  pub max_inventory_parameter_specs_per_ai_spec : ℕ
  pub max_access_specs : ℕ
  pub max_op_specs_per_access_spec : ℕ

-- `LLRPCapabilities.getHeader` and `EncodeFields`
unfoldable pub llrp_capabilities_header : LlrpCapabilities → ParamHeader
llrp_capabilities_header p =
    header param_llrp_capabilities 28
      (((b2b p.can_do_rf_survey 7
            + b2b p.can_report_buffer_fill_warning 6
            + b2b p.supports_client_request_op_spec 5
            + b2b p.can_do_tag_inventory_state_aware_singulation 4
            + b2b p.supports_events_and_report_holding 3)
          ∷ p.max_priority_level_supported
          ∷ [])
        ++ be16 p.client_requested_op_spec_timeout
        ++ be32 p.max_ro_specs
        ++ be32 p.max_specs_per_ro_spec
        ++ be32 p.max_inventory_parameter_specs_per_ai_spec
        ++ be32 p.max_access_specs
        ++ be32 p.max_op_specs_per_access_spec)
      nil

-- `LLRPCapabilities.UnmarshalBinary`
unfoldable pub unmarshal_llrp_capabilities : List ℕ → Outcome CodecError LlrpCapabilities
unmarshal_llrp_capabilities bytes = do
  has_enough_bytes param_llrp_capabilities 24 (length bytes) true
  b0 ← byte_at 0 bytes
  max_priority_level_supported ← byte_at 1 bytes
  client_requested_op_spec_timeout ← uint16_at 2 bytes
  max_ro_specs ← uint32_at 4 bytes
  max_specs_per_ro_spec ← uint32_at 8 bytes
  max_inventory_parameter_specs_per_ai_spec ← uint32_at 12 bytes
  max_access_specs ← uint32_at 16 bytes
  max_op_specs_per_access_spec ← uint32_at 20 bytes
  ok (record {
    can_do_rf_survey = not (b0 / 2 ^ 7 == 0);
    can_report_buffer_fill_warning = has_bit 6 b0;
    supports_client_request_op_spec = has_bit 5 b0;
    can_do_tag_inventory_state_aware_singulation = has_bit 4 b0;
    supports_events_and_report_holding = has_bit 3 b0;
    max_priority_level_supported = max_priority_level_supported;
    client_requested_op_spec_timeout = client_requested_op_spec_timeout;
    max_ro_specs = max_ro_specs;
    max_specs_per_ro_spec = max_specs_per_ro_spec;
    max_inventory_parameter_specs_per_ai_spec = max_inventory_parameter_specs_per_ai_spec;
    max_access_specs = max_access_specs;
    max_op_specs_per_access_spec = max_op_specs_per_access_spec;
  })

pub record C1g2LlrpCapabilities : Type 0 where
  pub supports_block_erase : Bool
  pub supports_block_write : Bool
  pub supports_block_permalock : Bool
  pub supports_tag_recommissioning : Bool
  pub supports_umi_method2 : Bool
  pub supports_xpc : Bool
  pub max_select_filters_per_query : ℕ

-- `C1G2LLRPCapabilities.getHeader` and `EncodeFields`
unfoldable pub c1g2_llrp_capabilities_header : C1g2LlrpCapabilities → ParamHeader
c1g2_llrp_capabilities_header p =
    header param_c1g2_llrp_capabilities 7
      (((b2b p.supports_block_erase 7
            + b2b p.supports_block_write 6
            + b2b p.supports_block_permalock 5
            + b2b p.supports_tag_recommissioning 4
            + b2b p.supports_umi_method2 3
            + b2b p.supports_xpc 2)
          ∷ [])
        ++ be16 p.max_select_filters_per_query)
      nil

-- `C1G2LLRPCapabilities.UnmarshalBinary`
unfoldable pub unmarshal_c1g2_llrp_capabilities : List ℕ → Outcome CodecError C1g2LlrpCapabilities
unmarshal_c1g2_llrp_capabilities bytes = do
  has_enough_bytes param_c1g2_llrp_capabilities 3 (length bytes) true
  b0 ← byte_at 0 bytes
  max_select_filters_per_query ← uint16_at 1 bytes
  ok (record {
    supports_block_erase = not (b0 / 2 ^ 7 == 0);
    supports_block_write = has_bit 6 b0;
    supports_block_permalock = has_bit 5 b0;
    supports_tag_recommissioning = has_bit 4 b0;
    supports_umi_method2 = has_bit 3 b0;
    supports_xpc = has_bit 2 b0;
    max_select_filters_per_query = max_select_filters_per_query;
  })

pub record GeneralDeviceCapabilities : Type 0 where
  pub max_supported_antennas : ℕ
  pub can_set_antenna_properties : Bool
  pub has_utc_clock : Bool
  pub device_manufacturer : ℕ
  pub model : ℕ
  pub firmware_version : List ℕ
  pub receive_sensitivities : List ReceiveSensitivityTableEntry
  pub per_antenna_receive_sensitivity_ranges : List PerAntennaReceiveSensitivityRange
  pub gpio_capabilities : GpioCapabilities
  pub per_antenna_air_protocols : List PerAntennaAirProtocol
  pub maximum_receive_sensitivity : Option ℕ

-- `GeneralDeviceCapabilities.getHeader` and `EncodeFields`
unfoldable pub general_device_capabilities_header : GeneralDeviceCapabilities → ParamHeader
general_device_capabilities_header p =
    let subs : ParamHeaders =
      every receive_sensitivity_table_entry_header p.receive_sensitivities
      +++ every per_antenna_receive_sensitivity_range_header
          p.per_antenna_receive_sensitivity_ranges
      +++ one (gpio_capabilities_header p.gpio_capabilities)
      +++ every per_antenna_air_protocol_header p.per_antenna_air_protocols
      +++ maybe maximum_receive_sensitivity_header p.maximum_receive_sensitivity
      +++ nil in
    header param_general_device_capabilities (add_sizes (u16 (18 + length p.firmware_version)) subs)
      (be16 p.max_supported_antennas
        ++ ((b2b p.can_set_antenna_properties 7 + b2b p.has_utc_clock 6) ∷ 0 ∷ [])
        ++ be32 p.device_manufacturer
        ++ be32 p.model
        ++ be16 (length p.firmware_version)
        ++ p.firmware_version)
      subs

unfoldable pub general_device_capabilities_group1 : Cases GeneralDeviceCapabilities
general_device_capabilities_group1 pt p =
    if pt == param_receive_sensitivity_table_entry
    then into (within unmarshal_receive_sensitivity_table_entry)
        (λ x. record p { receive_sensitivities = p.receive_sensitivities ++ (x ∷ []) })
    else none

unfoldable pub general_device_capabilities_group2 : Cases GeneralDeviceCapabilities
general_device_capabilities_group2 pt p =
    if pt == param_per_antenna_receive_sensitivity_range
    then into (within unmarshal_per_antenna_receive_sensitivity_range) (λ x. record p {
      per_antenna_receive_sensitivity_ranges = p.per_antenna_receive_sensitivity_ranges ++ (x ∷ []);
    })
    else none

unfoldable pub general_device_capabilities_group3 : Cases GeneralDeviceCapabilities
general_device_capabilities_group3 pt p =
    if pt == param_per_antenna_air_protocol
    then into (within unmarshal_per_antenna_air_protocol)
        (λ x. record p { per_antenna_air_protocols = p.per_antenna_air_protocols ++ (x ∷ []) })
    else none

-- `GeneralDeviceCapabilities.UnmarshalBinary`
unfoldable pub unmarshal_general_device_capabilities :
    List ℕ → Outcome CodecError GeneralDeviceCapabilities
unmarshal_general_device_capabilities bytes = do
  has_enough_bytes param_general_device_capabilities 30 (length bytes) false
  max_supported_antennas ← uint16_at 0 bytes
  b2 ← byte_at 2 bytes
  device_manufacturer ← uint32_at 4 bytes
  model ← uint32_at 8 bytes
  (firmware_version, rest) ← byte_array 12 bytes
  let p : GeneralDeviceCapabilities = record {
    max_supported_antennas = max_supported_antennas;
    can_set_antenna_properties = not (b2 / 2 ^ 7 == 0);
    has_utc_clock = has_bit 6 b2;
    device_manufacturer = device_manufacturer;
    model = model;
    firmware_version = firmware_version;
    receive_sensitivities = [];
    per_antenna_receive_sensitivity_ranges = [];
    gpio_capabilities = zero_gpio_capabilities;
    per_antenna_air_protocols = [];
    maximum_receive_sensitivity = none;
  }
  (p2, rest2) ← group (suc (length rest)) general_device_capabilities_group1 p rest
  (p3, rest3) ← group (suc (length rest2)) general_device_capabilities_group2 p2 rest2
  has_enough_bytes param_gpio_capabilities 8 (length rest3) false
  (gpio_capabilities, rest4) ←
      required param_gpio_capabilities (within unmarshal_gpio_capabilities) rest3
  let p_gpio_capabilities : GeneralDeviceCapabilities = record p3 {
    gpio_capabilities = gpio_capabilities;
  }
  (p5, rest5) ←
      group (suc (length rest4)) general_device_capabilities_group3 p_gpio_capabilities rest4
  unless_empty rest5 p5 (do
    (maximum_receive_sensitivity, rest6) ←
        optional param_maximum_receive_sensitivity (beyond uint16) rest5
    let p_maximum_receive_sensitivity : GeneralDeviceCapabilities = record p5 {
      maximum_receive_sensitivity = maximum_receive_sensitivity;
    }
    finished rest6 p_maximum_receive_sensitivity)
