-- ===== src/Llrp/Codec/TvScalars.antt =====
-- TV parameters that are a single number, as `AntennaID`: generated code of pkg/llrp.
use device_rfid_llrp_go.Prelude.{ℕ, true, List, [], ◌∷◌, length, Outcome, ok, ◌>>=◌, ◌>>◌}
use device_rfid_llrp_go.Llrp.Bytes.{be16, be32, be64}
use device_rfid_llrp_go.Llrp.Params.{ParamHeader, header, nil, CodecError, has_enough_bytes}
use device_rfid_llrp_go.Llrp.Fields.{byte_at, uint16_at, uint32_at, uint64_at, u8}
use device_rfid_llrp_go.Llrp.ParamTypes.{
  param_access_spec_id, param_antenna_id, param_c1g2_crc, param_c1g2_xpcw1, param_c1g2_xpcw2,
  param_channel_index, param_client_request_op_spec_result, param_first_seen_uptime,
  param_first_seen_utc, param_inventory_parameter_spec_id, param_last_seen_uptime,
  param_last_seen_utc, param_op_spec_id, param_peak_rssi, param_ro_spec_id, param_spec_index,
  param_tag_seen_count,
}

-- `AntennaID.getHeader` and `EncodeFields`
unfoldable pub antenna_id_header : ℕ → ParamHeader
antenna_id_header v = header param_antenna_id 3 (be16 v) nil

-- `AntennaID.UnmarshalBinary`
unfoldable pub unmarshal_antenna_id : List ℕ → Outcome CodecError ℕ
unmarshal_antenna_id bytes = do
  has_enough_bytes param_antenna_id 2 (length bytes) true
  v ← uint16_at 0 bytes
  ok v

-- `FirstSeenUTC.getHeader` and `EncodeFields`
unfoldable pub first_seen_utc_header : ℕ → ParamHeader
first_seen_utc_header v = header param_first_seen_utc 9 (be64 v) nil

-- `FirstSeenUTC.UnmarshalBinary`
unfoldable pub unmarshal_first_seen_utc : List ℕ → Outcome CodecError ℕ
unmarshal_first_seen_utc bytes = do
  has_enough_bytes param_first_seen_utc 8 (length bytes) true
  v ← uint64_at 0 bytes
  ok v

-- `FirstSeenUptime.getHeader` and `EncodeFields`
unfoldable pub first_seen_uptime_header : ℕ → ParamHeader
first_seen_uptime_header v = header param_first_seen_uptime 9 (be64 v) nil

-- `FirstSeenUptime.UnmarshalBinary`
unfoldable pub unmarshal_first_seen_uptime : List ℕ → Outcome CodecError ℕ
unmarshal_first_seen_uptime bytes = do
  has_enough_bytes param_first_seen_uptime 8 (length bytes) true
  v ← uint64_at 0 bytes
  ok v

-- `LastSeenUTC.getHeader` and `EncodeFields`
unfoldable pub last_seen_utc_header : ℕ → ParamHeader
last_seen_utc_header v = header param_last_seen_utc 9 (be64 v) nil

-- `LastSeenUTC.UnmarshalBinary`
unfoldable pub unmarshal_last_seen_utc : List ℕ → Outcome CodecError ℕ
unmarshal_last_seen_utc bytes = do
  has_enough_bytes param_last_seen_utc 8 (length bytes) true
  v ← uint64_at 0 bytes
  ok v

-- `LastSeenUptime.getHeader` and `EncodeFields`
unfoldable pub last_seen_uptime_header : ℕ → ParamHeader
last_seen_uptime_header v = header param_last_seen_uptime 9 (be64 v) nil

-- `LastSeenUptime.UnmarshalBinary`
unfoldable pub unmarshal_last_seen_uptime : List ℕ → Outcome CodecError ℕ
unmarshal_last_seen_uptime bytes = do
  has_enough_bytes param_last_seen_uptime 8 (length bytes) true
  v ← uint64_at 0 bytes
  ok v

-- `PeakRSSI.getHeader` and `EncodeFields`
unfoldable pub peak_rssi_header : ℕ → ParamHeader
peak_rssi_header v = header param_peak_rssi 2 (u8 v ∷ []) nil

-- `PeakRSSI.UnmarshalBinary`
unfoldable pub unmarshal_peak_rssi : List ℕ → Outcome CodecError ℕ
unmarshal_peak_rssi bytes = do
  has_enough_bytes param_peak_rssi 1 (length bytes) true
  v ← byte_at 0 bytes
  ok v

-- `ChannelIndex.getHeader` and `EncodeFields`
unfoldable pub channel_index_header : ℕ → ParamHeader
channel_index_header v = header param_channel_index 3 (be16 v) nil

-- `ChannelIndex.UnmarshalBinary`
unfoldable pub unmarshal_channel_index : List ℕ → Outcome CodecError ℕ
unmarshal_channel_index bytes = do
  has_enough_bytes param_channel_index 2 (length bytes) true
  v ← uint16_at 0 bytes
  ok v

-- `TagSeenCount.getHeader` and `EncodeFields`
unfoldable pub tag_seen_count_header : ℕ → ParamHeader
tag_seen_count_header v = header param_tag_seen_count 3 (be16 v) nil

-- `TagSeenCount.UnmarshalBinary`
unfoldable pub unmarshal_tag_seen_count : List ℕ → Outcome CodecError ℕ
unmarshal_tag_seen_count bytes = do
  has_enough_bytes param_tag_seen_count 2 (length bytes) true
  v ← uint16_at 0 bytes
  ok v

-- `ROSpecID.getHeader` and `EncodeFields`
unfoldable pub ro_spec_id_header : ℕ → ParamHeader
ro_spec_id_header v = header param_ro_spec_id 5 (be32 v) nil

-- `ROSpecID.UnmarshalBinary`
unfoldable pub unmarshal_ro_spec_id : List ℕ → Outcome CodecError ℕ
unmarshal_ro_spec_id bytes = do
  has_enough_bytes param_ro_spec_id 4 (length bytes) true
  v ← uint32_at 0 bytes
  ok v

-- `InventoryParameterSpecID.getHeader` and `EncodeFields`
unfoldable pub inventory_parameter_spec_id_header : ℕ → ParamHeader
inventory_parameter_spec_id_header v = header param_inventory_parameter_spec_id 3 (be16 v) nil

-- `InventoryParameterSpecID.UnmarshalBinary`
unfoldable pub unmarshal_inventory_parameter_spec_id : List ℕ → Outcome CodecError ℕ
unmarshal_inventory_parameter_spec_id bytes = do
  has_enough_bytes param_inventory_parameter_spec_id 2 (length bytes) true
  v ← uint16_at 0 bytes
  ok v

-- `C1G2CRC.getHeader` and `EncodeFields`
unfoldable pub c1g2_crc_header : ℕ → ParamHeader
c1g2_crc_header v = header param_c1g2_crc 3 (be16 v) nil

-- `C1G2CRC.UnmarshalBinary`
unfoldable pub unmarshal_c1g2_crc : List ℕ → Outcome CodecError ℕ
unmarshal_c1g2_crc bytes = do
  has_enough_bytes param_c1g2_crc 2 (length bytes) true
  v ← uint16_at 0 bytes
  ok v

-- `SpecIndex.getHeader` and `EncodeFields`
unfoldable pub spec_index_header : ℕ → ParamHeader
spec_index_header v = header param_spec_index 3 (be16 v) nil

-- `SpecIndex.UnmarshalBinary`
unfoldable pub unmarshal_spec_index : List ℕ → Outcome CodecError ℕ
unmarshal_spec_index bytes = do
  has_enough_bytes param_spec_index 2 (length bytes) true
  v ← uint16_at 0 bytes
  ok v

-- `ClientRequestOpSpecResult.getHeader` and `EncodeFields`
unfoldable pub client_request_op_spec_result_header : ℕ → ParamHeader
client_request_op_spec_result_header v = header param_client_request_op_spec_result 3 (be16 v) nil

-- `ClientRequestOpSpecResult.UnmarshalBinary`
unfoldable pub unmarshal_client_request_op_spec_result : List ℕ → Outcome CodecError ℕ
unmarshal_client_request_op_spec_result bytes = do
  has_enough_bytes param_client_request_op_spec_result 2 (length bytes) true
  v ← uint16_at 0 bytes
  ok v

-- `AccessSpecID.getHeader` and `EncodeFields`
unfoldable pub access_spec_id_header : ℕ → ParamHeader
access_spec_id_header v = header param_access_spec_id 5 (be32 v) nil

-- `AccessSpecID.UnmarshalBinary`
unfoldable pub unmarshal_access_spec_id : List ℕ → Outcome CodecError ℕ
unmarshal_access_spec_id bytes = do
  has_enough_bytes param_access_spec_id 4 (length bytes) true
  v ← uint32_at 0 bytes
  ok v

-- `OpSpecID.getHeader` and `EncodeFields`
unfoldable pub op_spec_id_header : ℕ → ParamHeader
op_spec_id_header v = header param_op_spec_id 3 (be16 v) nil

-- `OpSpecID.UnmarshalBinary`
unfoldable pub unmarshal_op_spec_id : List ℕ → Outcome CodecError ℕ
unmarshal_op_spec_id bytes = do
  has_enough_bytes param_op_spec_id 2 (length bytes) true
  v ← uint16_at 0 bytes
  ok v

-- `C1G2XPCW1.getHeader` and `EncodeFields`
unfoldable pub c1g2_xpcw1_header : ℕ → ParamHeader
c1g2_xpcw1_header v = header param_c1g2_xpcw1 3 (be16 v) nil

-- `C1G2XPCW1.UnmarshalBinary`
unfoldable pub unmarshal_c1g2_xpcw1 : List ℕ → Outcome CodecError ℕ
unmarshal_c1g2_xpcw1 bytes = do
  has_enough_bytes param_c1g2_xpcw1 2 (length bytes) true
  v ← uint16_at 0 bytes
  ok v

-- `C1G2XPCW2.getHeader` and `EncodeFields`
unfoldable pub c1g2_xpcw2_header : ℕ → ParamHeader
c1g2_xpcw2_header v = header param_c1g2_xpcw2 3 (be16 v) nil

-- `C1G2XPCW2.UnmarshalBinary`
unfoldable pub unmarshal_c1g2_xpcw2 : List ℕ → Outcome CodecError ℕ
unmarshal_c1g2_xpcw2 bytes = do
  has_enough_bytes param_c1g2_xpcw2 2 (length bytes) true
  v ← uint16_at 0 bytes
  ok v
