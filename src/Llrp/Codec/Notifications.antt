-- ===== src/Llrp/Codec/Notifications.antt =====
-- `ReaderEventNotification`: generated code of pkg/llrp.
use device_rfid_llrp_go.Prelude.{
  ℕ, suc, ◌+◌, false, not, Option, none, some, List, [], ◌∷◌, ◌++◌, leb, ◌==◌, if◌then◌else◌,
  length, Outcome, ◌>>=◌, ◌>>◌, guard,
}
use device_rfid_llrp_go.Llrp.Bytes.{be16, uint8, uint16, uint32, uint64}
use device_rfid_llrp_go.Llrp.Params.{
  ParamHeader, ParamHeaders, header, nil, CodecError, has_enough_bytes, encode_params,
}
use device_rfid_llrp_go.Llrp.Fields.{
  byte_array, finished, unless_empty, within, beyond, required, Cases, into, one_of, group, tv_type,
  MixedCases, into_rest, tv, mixed_group, u16, ◌+++◌, one, every, maybe, add_sizes,
}
use device_rfid_llrp_go.Llrp.ParamTypes.{
  param_access_spec_id, param_ai_spec_event, param_antenna_event, param_antenna_id,
  param_connection_attempt_event, param_connection_close_event, param_custom, param_gpi_event,
  param_hopping_event, param_inventory_parameter_spec_id, param_op_spec_id,
  param_reader_event_notification_data, param_reader_exception_event,
  param_report_buffer_level_warning_event, param_report_buffer_overflow_error_event,
  param_rf_survey_event, param_ro_spec_event, param_ro_spec_id, param_spec_index,
  param_spec_loop_event, param_uptime, param_utc_timestamp,
}
use device_rfid_llrp_go.Llrp.MessageTypes as MessageTypes
use device_rfid_llrp_go.Llrp.Codec.TvScalars.{
  antenna_id_header, ro_spec_id_header, inventory_parameter_spec_id_header, spec_index_header,
  access_spec_id_header, op_spec_id_header,
}
use device_rfid_llrp_go.Llrp.Codec.Scalars.{
  utc_timestamp_header, uptime_header, hopping_event_header,
  report_buffer_level_warning_event_header, connection_attempt_event_header,
}
use device_rfid_llrp_go.Llrp.Codec.Identities.{Custom, custom_header, unmarshal_custom}
use device_rfid_llrp_go.Llrp.Codec.Events.{
  GpiEvent, gpi_event_header, unmarshal_gpi_event, RoSpecEvent, ro_spec_event_header,
  unmarshal_ro_spec_event, report_buffer_overflow_error_event_header,
  unmarshal_report_buffer_overflow_error_event, RfSurveyEvent, rf_survey_event_header,
  unmarshal_rf_survey_event, AiSpecEvent, ai_spec_event_header, unmarshal_ai_spec_event,
  AntennaEvent, antenna_event_header, unmarshal_antenna_event, connection_close_event_header,
  unmarshal_connection_close_event, SpecLoopEvent, spec_loop_event_header,
  unmarshal_spec_loop_event,
}

pub record ReaderExceptionEvent : Type 0 where
  pub message : List ℕ
  pub ro_spec_id : Option ℕ
  pub spec_index : Option ℕ
  pub inventory_parameter_spec_id : Option ℕ
  pub antenna_id : Option ℕ
  pub access_spec_id : Option ℕ
  pub op_spec_id : Option ℕ
  pub custom : List Custom

-- `ReaderExceptionEvent.getHeader` and `EncodeFields`
unfoldable pub reader_exception_event_header : ReaderExceptionEvent → ParamHeader
reader_exception_event_header p =
    let subs : ParamHeaders =
      maybe ro_spec_id_header p.ro_spec_id
      +++ maybe spec_index_header p.spec_index
      +++ maybe inventory_parameter_spec_id_header p.inventory_parameter_spec_id
      +++ maybe antenna_id_header p.antenna_id
      +++ maybe access_spec_id_header p.access_spec_id
      +++ maybe op_spec_id_header p.op_spec_id
      +++ every custom_header p.custom
      +++ nil in
    header param_reader_exception_event (add_sizes (u16 (6 + length p.message)) subs)
      (be16 (length p.message) ++ p.message) subs

unfoldable pub reader_exception_event_group1 : MixedCases ReaderExceptionEvent
reader_exception_event_group1 pt p =
    if pt == param_ro_spec_id
    then into_rest (tv 5 uint32) (λ x. record p { ro_spec_id = some x })
    else if pt == param_spec_index
    then into_rest (tv 3 uint16) (λ x. record p { spec_index = some x })
    else if pt == param_inventory_parameter_spec_id
    then into_rest (tv 3 uint16) (λ x. record p { inventory_parameter_spec_id = some x })
    else if pt == param_antenna_id
    then into_rest (tv 3 uint16) (λ x. record p { antenna_id = some x })
    else if pt == param_access_spec_id
    then into_rest (tv 5 uint32) (λ x. record p { access_spec_id = some x })
    else if pt == param_op_spec_id
    then into_rest (tv 3 uint16) (λ x. record p { op_spec_id = some x })
    else none

unfoldable pub reader_exception_event_group2 : Cases ReaderExceptionEvent
reader_exception_event_group2 pt p =
    if pt == param_custom
    then into (within unmarshal_custom) (λ x. record p { custom = p.custom ++ (x ∷ []) })
    else none

-- `ReaderExceptionEvent.UnmarshalBinary`
unfoldable pub unmarshal_reader_exception_event : List ℕ → Outcome CodecError ReaderExceptionEvent
unmarshal_reader_exception_event bytes = do
  has_enough_bytes param_reader_exception_event 2 (length bytes) false
  (message, rest) ← byte_array 0 bytes
  let p : ReaderExceptionEvent = record {
    message = message;
    ro_spec_id = none;
    spec_index = none;
    inventory_parameter_spec_id = none;
    antenna_id = none;
    access_spec_id = none;
    op_spec_id = none;
    custom = [];
  }
  unless_empty rest p (do
    (p2, rest2) ← mixed_group tv_type (suc (length rest)) reader_exception_event_group1 p rest
    unless_empty rest2 p2 (do
      (p3, rest3) ← group (suc (length rest2)) reader_exception_event_group2 p2 rest2
      finished rest3 p3))

pub record ReaderEventNotificationData : Type 0 where
  pub utc_timestamp : ℕ
  pub uptime : ℕ
  pub hopping_event : Option ℕ
  pub gpi_event : Option GpiEvent
  pub ro_spec_event : Option RoSpecEvent
  pub report_buffer_level_warning_event : Option ℕ
  pub report_buffer_overflow_error_event : Option (Unit {0})
  pub reader_exception_event : Option ReaderExceptionEvent
  pub rf_survey_event : Option RfSurveyEvent
  pub ai_spec_event : Option AiSpecEvent
  pub antenna_event : Option AntennaEvent
  pub connection_attempt_event : Option ℕ
  pub connection_close_event : Option (Unit {0})
  pub spec_loop_event : Option SpecLoopEvent
  pub custom : List Custom

-- `ReaderEventNotificationData.getHeader` and `EncodeFields`
unfoldable pub reader_event_notification_data_header : ReaderEventNotificationData → ParamHeader
reader_event_notification_data_header p =
    let subs : ParamHeaders =
      (if not (p.utc_timestamp == 0)
        then one (utc_timestamp_header p.utc_timestamp)
        else if not (p.uptime == 0)
        then one (uptime_header p.uptime)
        else nil)
      +++ maybe hopping_event_header p.hopping_event
      +++ maybe gpi_event_header p.gpi_event
      +++ maybe ro_spec_event_header p.ro_spec_event
      +++ maybe report_buffer_level_warning_event_header p.report_buffer_level_warning_event
      +++ maybe report_buffer_overflow_error_event_header p.report_buffer_overflow_error_event
      +++ maybe reader_exception_event_header p.reader_exception_event
      +++ maybe rf_survey_event_header p.rf_survey_event
      +++ maybe ai_spec_event_header p.ai_spec_event
      +++ maybe antenna_event_header p.antenna_event
      +++ maybe connection_attempt_event_header p.connection_attempt_event
      +++ maybe connection_close_event_header p.connection_close_event
      +++ maybe spec_loop_event_header p.spec_loop_event
      +++ every custom_header p.custom
      +++ nil in
    header param_reader_event_notification_data (add_sizes 4 subs) ([]) subs

unfoldable pub reader_event_notification_data_one_of : Cases ReaderEventNotificationData
reader_event_notification_data_one_of pt p =
    if pt == param_utc_timestamp
    then into (beyond uint64) (λ x. record p { utc_timestamp = x })
    else if pt == param_uptime
    then into (beyond uint64) (λ x. record p { uptime = x })
    else none

unfoldable pub reader_event_notification_data_group2 : Cases ReaderEventNotificationData
reader_event_notification_data_group2 pt p =
    if pt == param_hopping_event
    then into (beyond uint16) (λ x. record p { hopping_event = some x })
    else if pt == param_gpi_event
    then into (within unmarshal_gpi_event) (λ x. record p { gpi_event = some x })
    else if pt == param_ro_spec_event
    then into (within unmarshal_ro_spec_event) (λ x. record p { ro_spec_event = some x })
    else if pt == param_report_buffer_level_warning_event
    then into (beyond uint8) (λ x. record p { report_buffer_level_warning_event = some x })
    else if pt == param_report_buffer_overflow_error_event
    then into (within unmarshal_report_buffer_overflow_error_event)
        (λ x. record p { report_buffer_overflow_error_event = some x })
    else if pt == param_reader_exception_event
    then into (within unmarshal_reader_exception_event)
        (λ x. record p { reader_exception_event = some x })
    else if pt == param_rf_survey_event
    then into (within unmarshal_rf_survey_event) (λ x. record p { rf_survey_event = some x })
    else if pt == param_ai_spec_event
    then into (within unmarshal_ai_spec_event) (λ x. record p { ai_spec_event = some x })
    else if pt == param_antenna_event
    then into (within unmarshal_antenna_event) (λ x. record p { antenna_event = some x })
    else if pt == param_connection_attempt_event
    then into (beyond uint16) (λ x. record p { connection_attempt_event = some x })
    else if pt == param_connection_close_event
    then into (within unmarshal_connection_close_event)
        (λ x. record p { connection_close_event = some x })
    else if pt == param_spec_loop_event
    then into (within unmarshal_spec_loop_event) (λ x. record p { spec_loop_event = some x })
    else none

unfoldable pub reader_event_notification_data_group3 : Cases ReaderEventNotificationData
reader_event_notification_data_group3 pt p =
    if pt == param_custom
    then into (within unmarshal_custom) (λ x. record p { custom = p.custom ++ (x ∷ []) })
    else none

-- `ReaderEventNotificationData.UnmarshalBinary`
unfoldable pub unmarshal_reader_event_notification_data :
    List ℕ → Outcome CodecError ReaderEventNotificationData
unmarshal_reader_event_notification_data bytes = do
  has_enough_bytes param_reader_event_notification_data 12 (length bytes) false
  let p : ReaderEventNotificationData = record {
    utc_timestamp = 0;
    uptime = 0;
    hopping_event = none;
    gpi_event = none;
    ro_spec_event = none;
    report_buffer_level_warning_event = none;
    report_buffer_overflow_error_event = none;
    reader_exception_event = none;
    rf_survey_event = none;
    ai_spec_event = none;
    antenna_event = none;
    connection_attempt_event = none;
    connection_close_event = none;
    spec_loop_event = none;
    custom = [];
  }
  (p1, rest) ← one_of reader_event_notification_data_one_of p bytes
  unless_empty rest p1 (do
    (p2, rest2) ← group (suc (length rest)) reader_event_notification_data_group2 p1 rest
    unless_empty rest2 p2 (do
      (p3, rest3) ← group (suc (length rest2)) reader_event_notification_data_group3 p2 rest2
      finished rest3 p3))

pub record ReaderEventNotification : Type 0 where
  pub reader_event_notification_data : ReaderEventNotificationData

-- `ReaderEventNotification.MarshalBinary`
unfoldable pub marshal_reader_event_notification : ReaderEventNotification → List ℕ
marshal_reader_event_notification p =
    encode_params
      (one (reader_event_notification_data_header p.reader_event_notification_data) +++ nil)

-- `ReaderEventNotification.UnmarshalBinary`
unfoldable pub unmarshal_reader_event_notification :
    List ℕ → Outcome CodecError ReaderEventNotification
unmarshal_reader_event_notification bytes = do
  guard (leb 16 (length bytes))
      (CodecError.wrong_length MessageTypes.reader_event_notification (length bytes))
  (reader_event_notification_data, rest) ←
      required param_reader_event_notification_data
        (within unmarshal_reader_event_notification_data) bytes
  finished rest (record { reader_event_notification_data = reader_event_notification_data })
