-- ===== src/Llrp/Codec/Scalars.antt =====
-- TLV parameters that are a single number or flag, as `UTCTimestamp`: generated code of pkg/llrp.
use device_rfid_llrp_go.Prelude.{
  ℕ, ◌/◌, ◌^◌, Bool, true, not, List, [], ◌∷◌, ◌==◌, length, Outcome, ok, ◌>>=◌, ◌>>◌,
}
use device_rfid_llrp_go.Llrp.Bytes.{be16, be32, be64}
use device_rfid_llrp_go.Llrp.Params.{ParamHeader, header, nil, CodecError, has_enough_bytes}
use device_rfid_llrp_go.Llrp.Fields.{byte_at, uint16_at, uint32_at, uint64_at, u8, b2b}
use device_rfid_llrp_go.Llrp.ParamTypes.{
  param_access_report_spec, param_c1g2_tag_inventory_state_unaware_filter_action,
  param_client_request_op_spec, param_connection_attempt_event, param_events_and_reports,
  param_hopping_event, param_llrp_configuration_state_value, param_loop_spec,
  param_maximum_receive_sensitivity, param_report_buffer_level_warning_event, param_rf_receiver,
  param_uptime, param_utc_timestamp,
}

-- `UTCTimestamp.getHeader` and `EncodeFields`
unfoldable pub utc_timestamp_header : ℕ → ParamHeader
utc_timestamp_header v = header param_utc_timestamp 12 (be64 v) nil

-- `UTCTimestamp.UnmarshalBinary`
unfoldable pub unmarshal_utc_timestamp : List ℕ → Outcome CodecError ℕ
unmarshal_utc_timestamp bytes = do
  has_enough_bytes param_utc_timestamp 8 (length bytes) true
  v ← uint64_at 0 bytes
  ok v

-- `Uptime.getHeader` and `EncodeFields`
unfoldable pub uptime_header : ℕ → ParamHeader
uptime_header v = header param_uptime 12 (be64 v) nil

-- `Uptime.UnmarshalBinary`
unfoldable pub unmarshal_uptime : List ℕ → Outcome CodecError ℕ
unmarshal_uptime bytes = do
  has_enough_bytes param_uptime 8 (length bytes) true
  v ← uint64_at 0 bytes
  ok v

-- `ClientRequestOpSpec.getHeader` and `EncodeFields`
unfoldable pub client_request_op_spec_header : ℕ → ParamHeader
client_request_op_spec_header v = header param_client_request_op_spec 6 (be16 v) nil

-- `ClientRequestOpSpec.UnmarshalBinary`
unfoldable pub unmarshal_client_request_op_spec : List ℕ → Outcome CodecError ℕ
unmarshal_client_request_op_spec bytes = do
  has_enough_bytes param_client_request_op_spec 2 (length bytes) true
  v ← uint16_at 0 bytes
  ok v

-- `LLRPConfigurationStateValue.getHeader` and `EncodeFields`
unfoldable pub llrp_configuration_state_value_header : ℕ → ParamHeader
llrp_configuration_state_value_header v = header param_llrp_configuration_state_value 8 (be32 v) nil

-- `LLRPConfigurationStateValue.UnmarshalBinary`
unfoldable pub unmarshal_llrp_configuration_state_value : List ℕ → Outcome CodecError ℕ
unmarshal_llrp_configuration_state_value bytes = do
  has_enough_bytes param_llrp_configuration_state_value 4 (length bytes) true
  v ← uint32_at 0 bytes
  ok v

-- `RFReceiver.getHeader` and `EncodeFields`
unfoldable pub rf_receiver_header : ℕ → ParamHeader
rf_receiver_header v = header param_rf_receiver 6 (be16 v) nil

-- `RFReceiver.UnmarshalBinary`
unfoldable pub unmarshal_rf_receiver : List ℕ → Outcome CodecError ℕ
unmarshal_rf_receiver bytes = do
  has_enough_bytes param_rf_receiver 2 (length bytes) true
  v ← uint16_at 0 bytes
  ok v

-- `EventsAndReports.getHeader` and `EncodeFields`
unfoldable pub events_and_reports_header : Bool → ParamHeader
events_and_reports_header v = header param_events_and_reports 5 (b2b v 7 ∷ []) nil

-- `EventsAndReports.UnmarshalBinary`
unfoldable pub unmarshal_events_and_reports : List ℕ → Outcome CodecError Bool
unmarshal_events_and_reports bytes = do
  has_enough_bytes param_events_and_reports 1 (length bytes) true
  v ← byte_at 0 bytes
  ok (not (v / 2 ^ 7 == 0))

-- `AccessReportSpec.getHeader` and `EncodeFields`
unfoldable pub access_report_spec_header : ℕ → ParamHeader
access_report_spec_header v = header param_access_report_spec 5 (u8 v ∷ []) nil

-- `AccessReportSpec.UnmarshalBinary`
unfoldable pub unmarshal_access_report_spec : List ℕ → Outcome CodecError ℕ
unmarshal_access_report_spec bytes = do
  has_enough_bytes param_access_report_spec 1 (length bytes) true
  v ← byte_at 0 bytes
  ok v

-- `HoppingEvent.getHeader` and `EncodeFields`
unfoldable pub hopping_event_header : ℕ → ParamHeader
hopping_event_header v = header param_hopping_event 6 (be16 v) nil

-- `HoppingEvent.UnmarshalBinary`
unfoldable pub unmarshal_hopping_event : List ℕ → Outcome CodecError ℕ
unmarshal_hopping_event bytes = do
  has_enough_bytes param_hopping_event 2 (length bytes) true
  v ← uint16_at 0 bytes
  ok v

-- `ReportBufferLevelWarningEvent.getHeader` and `EncodeFields`
unfoldable pub report_buffer_level_warning_event_header : ℕ → ParamHeader
report_buffer_level_warning_event_header v =
    header param_report_buffer_level_warning_event 5 (u8 v ∷ []) nil

-- `ReportBufferLevelWarningEvent.UnmarshalBinary`
unfoldable pub unmarshal_report_buffer_level_warning_event : List ℕ → Outcome CodecError ℕ
unmarshal_report_buffer_level_warning_event bytes = do
  has_enough_bytes param_report_buffer_level_warning_event 1 (length bytes) true
  v ← byte_at 0 bytes
  ok v

-- `ConnectionAttemptEvent.getHeader` and `EncodeFields`
unfoldable pub connection_attempt_event_header : ℕ → ParamHeader
connection_attempt_event_header v = header param_connection_attempt_event 6 (be16 v) nil

-- `ConnectionAttemptEvent.UnmarshalBinary`
unfoldable pub unmarshal_connection_attempt_event : List ℕ → Outcome CodecError ℕ
unmarshal_connection_attempt_event bytes = do
  has_enough_bytes param_connection_attempt_event 2 (length bytes) true
  v ← uint16_at 0 bytes
  ok v

-- `C1G2TagInventoryStateUnawareFilterAction.getHeader` and `EncodeFields`
unfoldable pub c1g2_tag_inventory_state_unaware_filter_action_header : ℕ → ParamHeader
c1g2_tag_inventory_state_unaware_filter_action_header v =
    header param_c1g2_tag_inventory_state_unaware_filter_action 5 (u8 v ∷ []) nil

-- `C1G2TagInventoryStateUnawareFilterAction.UnmarshalBinary`
unfoldable pub unmarshal_c1g2_tag_inventory_state_unaware_filter_action :
    List ℕ → Outcome CodecError ℕ
unmarshal_c1g2_tag_inventory_state_unaware_filter_action bytes = do
  has_enough_bytes param_c1g2_tag_inventory_state_unaware_filter_action 1 (length bytes) true
  v ← byte_at 0 bytes
  ok v

-- `LoopSpec.getHeader` and `EncodeFields`
unfoldable pub loop_spec_header : ℕ → ParamHeader
loop_spec_header v = header param_loop_spec 8 (be32 v) nil

-- `LoopSpec.UnmarshalBinary`
unfoldable pub unmarshal_loop_spec : List ℕ → Outcome CodecError ℕ
unmarshal_loop_spec bytes = do
  has_enough_bytes param_loop_spec 4 (length bytes) true
  v ← uint32_at 0 bytes
  ok v

-- `MaximumReceiveSensitivity.getHeader` and `EncodeFields`
unfoldable pub maximum_receive_sensitivity_header : ℕ → ParamHeader
maximum_receive_sensitivity_header v = header param_maximum_receive_sensitivity 6 (be16 v) nil

-- `MaximumReceiveSensitivity.UnmarshalBinary`
unfoldable pub unmarshal_maximum_receive_sensitivity : List ℕ → Outcome CodecError ℕ
unmarshal_maximum_receive_sensitivity bytes = do
  has_enough_bytes param_maximum_receive_sensitivity 2 (length bytes) true
  v ← uint16_at 0 bytes
  ok v
