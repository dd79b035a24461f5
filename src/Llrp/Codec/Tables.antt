-- ===== src/Llrp/Codec/Tables.antt =====
-- Entries of the tables of `GeneralDeviceCapabilities`: generated code of pkg/llrp.
use device_rfid_llrp_go.Prelude.{ℕ, ◌+◌, true, false, List, ◌++◌, length, Outcome, ok, ◌>>=◌, ◌>>◌}
use device_rfid_llrp_go.Llrp.Bytes.{be16}
use device_rfid_llrp_go.Llrp.Params.{ParamHeader, header, nil, CodecError, has_enough_bytes}
use device_rfid_llrp_go.Llrp.Fields.{uint16_at, byte_array, finished, u16}
use device_rfid_llrp_go.Llrp.ParamTypes.{
  param_gpio_capabilities, param_per_antenna_air_protocol,
  param_per_antenna_receive_sensitivity_range, param_receive_sensitivity_table_entry,
}

pub record ReceiveSensitivityTableEntry : Type 0 where
  pub index : ℕ
  pub receive_sensitivity : ℕ

-- `ReceiveSensitivityTableEntry.getHeader` and `EncodeFields`
unfoldable pub receive_sensitivity_table_entry_header : ReceiveSensitivityTableEntry → ParamHeader
receive_sensitivity_table_entry_header p =
    header param_receive_sensitivity_table_entry 8 (be16 p.index ++ be16 p.receive_sensitivity) nil

-- `ReceiveSensitivityTableEntry.UnmarshalBinary`
unfoldable pub unmarshal_receive_sensitivity_table_entry :
    List ℕ → Outcome CodecError ReceiveSensitivityTableEntry
unmarshal_receive_sensitivity_table_entry bytes = do
  has_enough_bytes param_receive_sensitivity_table_entry 4 (length bytes) true
  index ← uint16_at 0 bytes
  receive_sensitivity ← uint16_at 2 bytes
  ok (record { index = index; receive_sensitivity = receive_sensitivity })

pub record PerAntennaAirProtocol : Type 0 where
  pub antenna_id : ℕ
  pub air_protocol_ids : List ℕ

-- `PerAntennaAirProtocol.getHeader` and `EncodeFields`
unfoldable pub per_antenna_air_protocol_header : PerAntennaAirProtocol → ParamHeader
per_antenna_air_protocol_header p =
    header param_per_antenna_air_protocol (u16 (8 + length p.air_protocol_ids))
      (be16 p.antenna_id ++ be16 (length p.air_protocol_ids) ++ p.air_protocol_ids) nil

-- `PerAntennaAirProtocol.UnmarshalBinary`
unfoldable pub unmarshal_per_antenna_air_protocol :
    List ℕ → Outcome CodecError PerAntennaAirProtocol
unmarshal_per_antenna_air_protocol bytes = do
  has_enough_bytes param_per_antenna_air_protocol 4 (length bytes) false
  antenna_id ← uint16_at 0 bytes
  (air_protocol_ids, rest) ← byte_array 2 bytes
  finished rest (record { antenna_id = antenna_id; air_protocol_ids = air_protocol_ids })

pub record GpioCapabilities : Type 0 where
  pub num_gpis : ℕ
  pub num_gpos : ℕ

abbrev pub zero_gpio_capabilities : GpioCapabilities
zero_gpio_capabilities = record { num_gpis = 0; num_gpos = 0 }

-- `GPIOCapabilities.getHeader` and `EncodeFields`
unfoldable pub gpio_capabilities_header : GpioCapabilities → ParamHeader
gpio_capabilities_header p =
    header param_gpio_capabilities 8 (be16 p.num_gpis ++ be16 p.num_gpos) nil

-- `GPIOCapabilities.UnmarshalBinary`
unfoldable pub unmarshal_gpio_capabilities : List ℕ → Outcome CodecError GpioCapabilities
unmarshal_gpio_capabilities bytes = do
  has_enough_bytes param_gpio_capabilities 4 (length bytes) true
  num_gpis ← uint16_at 0 bytes
  num_gpos ← uint16_at 2 bytes
  ok (record { num_gpis = num_gpis; num_gpos = num_gpos })

pub record PerAntennaReceiveSensitivityRange : Type 0 where
  pub antenna_id : ℕ
  pub receive_sensitivity_index_min : ℕ
  pub receive_sensitivity_index_max : ℕ

-- `PerAntennaReceiveSensitivityRange.getHeader` and `EncodeFields`
unfoldable pub per_antenna_receive_sensitivity_range_header :
    PerAntennaReceiveSensitivityRange → ParamHeader
per_antenna_receive_sensitivity_range_header p =
    header param_per_antenna_receive_sensitivity_range 10
      (be16 p.antenna_id
        ++ be16 p.receive_sensitivity_index_min
        ++ be16 p.receive_sensitivity_index_max)
      nil

-- `PerAntennaReceiveSensitivityRange.UnmarshalBinary`
unfoldable pub unmarshal_per_antenna_receive_sensitivity_range :
    List ℕ → Outcome CodecError PerAntennaReceiveSensitivityRange
unmarshal_per_antenna_receive_sensitivity_range bytes = do
  has_enough_bytes param_per_antenna_receive_sensitivity_range 6 (length bytes) true
  antenna_id ← uint16_at 0 bytes
  receive_sensitivity_index_min ← uint16_at 2 bytes
  receive_sensitivity_index_max ← uint16_at 4 bytes
  ok (record {
    antenna_id = antenna_id;
    receive_sensitivity_index_min = receive_sensitivity_index_min;
    receive_sensitivity_index_max = receive_sensitivity_index_max;
  })
