-- ===== src/Llrp/Codec/ReaderConfig.antt =====
-- `GetReaderConfigResponse`: generated code of pkg/llrp.
use device_rfid_llrp_go.Prelude.{
  ℕ, suc, Bool, Option, none, some, List, [], ◌∷◌, ◌++◌, leb, ◌==◌, if◌then◌else◌, length, Outcome,
  ◌>>=◌, ◌>>◌, guard,
}
use device_rfid_llrp_go.Llrp.Bytes.{uint8, uint32}
use device_rfid_llrp_go.Llrp.Params.{nil, CodecError, encode_params}
use device_rfid_llrp_go.Llrp.Fields.{
  uint1, finished, unless_empty, within, beyond, required, optional, Cases, into, group, ◌+++◌, one,
  every, maybe,
}
use device_rfid_llrp_go.Llrp.Status.{LlrpStatus, unmarshal_status, status_header, param_llrp_status}
use device_rfid_llrp_go.Llrp.ParamTypes.{
  param_access_report_spec, param_antenna_configuration, param_antenna_properties, param_custom,
  param_events_and_reports, param_gpi_port_current_state, param_gpo_write_data,
  param_identification, param_keep_alive_spec, param_llrp_configuration_state_value,
  param_reader_event_notification_spec, param_ro_report_spec,
}
use device_rfid_llrp_go.Llrp.MessageTypes as MessageTypes
use device_rfid_llrp_go.Llrp.Codec.Scalars.{
  llrp_configuration_state_value_header, events_and_reports_header, access_report_spec_header,
}
use device_rfid_llrp_go.Llrp.Codec.Identities.{Custom, custom_header, unmarshal_custom}
use device_rfid_llrp_go.Llrp.Codec.Antennas.{
  AntennaProperties, antenna_properties_header, unmarshal_antenna_properties, AntennaConfiguration,
  antenna_configuration_header, unmarshal_antenna_configuration, GpiPortCurrentState,
  gpi_port_current_state_header, unmarshal_gpi_port_current_state, GpoWriteData,
  gpo_write_data_header, unmarshal_gpo_write_data, KeepAliveSpec, keep_alive_spec_header,
  unmarshal_keep_alive_spec, Identification, identification_header, unmarshal_identification,
}
use device_rfid_llrp_go.Llrp.Codec.ReportSpecs.{
  RoReportSpec, ro_report_spec_header, unmarshal_ro_report_spec, ReaderEventNotificationSpec,
  reader_event_notification_spec_header, unmarshal_reader_event_notification_spec,
}

pub record GetReaderConfigResponse : Type 0 where
  pub llrp_status : LlrpStatus
  pub identification : Option Identification
  pub antenna_properties : List AntennaProperties
  pub antenna_configurations : List AntennaConfiguration
  pub reader_event_notification_spec : Option ReaderEventNotificationSpec
  pub ro_report_spec : Option RoReportSpec
  pub access_report_spec : Option ℕ
  pub llrp_configuration_state_value : Option ℕ
  pub keep_alive_spec : Option KeepAliveSpec
  pub gpi_port_current_states : List GpiPortCurrentState
  pub gpo_write_data : List GpoWriteData
  pub events_and_reports : Option Bool
  pub custom : List Custom

-- `GetReaderConfigResponse.MarshalBinary`
unfoldable pub marshal_get_reader_config_response : GetReaderConfigResponse → List ℕ
marshal_get_reader_config_response p = encode_params (
    one (status_header p.llrp_status)
    +++ maybe identification_header p.identification
    +++ every antenna_properties_header p.antenna_properties
    +++ every antenna_configuration_header p.antenna_configurations
    +++ maybe reader_event_notification_spec_header p.reader_event_notification_spec
    +++ maybe ro_report_spec_header p.ro_report_spec
    +++ maybe access_report_spec_header p.access_report_spec
    +++ maybe llrp_configuration_state_value_header p.llrp_configuration_state_value
    +++ maybe keep_alive_spec_header p.keep_alive_spec
    +++ every gpi_port_current_state_header p.gpi_port_current_states
    +++ every gpo_write_data_header p.gpo_write_data
    +++ maybe events_and_reports_header p.events_and_reports
    +++ every custom_header p.custom
    +++ nil)

unfoldable pub get_reader_config_response_group1 : Cases GetReaderConfigResponse
get_reader_config_response_group1 pt p =
    if pt == param_antenna_properties
    then into (within unmarshal_antenna_properties)
        (λ x. record p { antenna_properties = p.antenna_properties ++ (x ∷ []) })
    else if pt == param_antenna_configuration
    then into (within unmarshal_antenna_configuration)
        (λ x. record p { antenna_configurations = p.antenna_configurations ++ (x ∷ []) })
    else none

unfoldable pub get_reader_config_response_group2 : Cases GetReaderConfigResponse
get_reader_config_response_group2 pt p =
    if pt == param_reader_event_notification_spec
    then into (within unmarshal_reader_event_notification_spec)
        (λ x. record p { reader_event_notification_spec = some x })
    else if pt == param_ro_report_spec
    then into (within unmarshal_ro_report_spec) (λ x. record p { ro_report_spec = some x })
    else if pt == param_access_report_spec
    then into (beyond uint8) (λ x. record p { access_report_spec = some x })
    else if pt == param_llrp_configuration_state_value
    then into (beyond uint32) (λ x. record p { llrp_configuration_state_value = some x })
    else if pt == param_keep_alive_spec
    then into (within unmarshal_keep_alive_spec) (λ x. record p { keep_alive_spec = some x })
    else none

unfoldable pub get_reader_config_response_group3 : Cases GetReaderConfigResponse
get_reader_config_response_group3 pt p =
    if pt == param_gpi_port_current_state
    then into (within unmarshal_gpi_port_current_state)
        (λ x. record p { gpi_port_current_states = p.gpi_port_current_states ++ (x ∷ []) })
    else if pt == param_gpo_write_data
    then into (within unmarshal_gpo_write_data)
        (λ x. record p { gpo_write_data = p.gpo_write_data ++ (x ∷ []) })
    else none

unfoldable pub get_reader_config_response_group4 : Cases GetReaderConfigResponse
get_reader_config_response_group4 pt p =
    if pt == param_custom
    then into (within unmarshal_custom) (λ x. record p { custom = p.custom ++ (x ∷ []) })
    else none

-- `GetReaderConfigResponse.UnmarshalBinary`
unfoldable pub unmarshal_get_reader_config_response :
    List ℕ → Outcome CodecError GetReaderConfigResponse
unmarshal_get_reader_config_response bytes = do
  guard (leb 8 (length bytes))
      (CodecError.wrong_length MessageTypes.get_reader_config_response (length bytes))
  (llrp_status, rest) ← required param_llrp_status (within unmarshal_status) bytes
  let p : GetReaderConfigResponse = record {
    llrp_status = llrp_status;
    identification = none;
    antenna_properties = [];
    antenna_configurations = [];
    reader_event_notification_spec = none;
    ro_report_spec = none;
    access_report_spec = none;
    llrp_configuration_state_value = none;
    keep_alive_spec = none;
    gpi_port_current_states = [];
    gpo_write_data = [];
    events_and_reports = none;
    custom = [];
  }
  unless_empty rest p (do
    (identification, rest2) ← optional param_identification (within unmarshal_identification) rest
    let p_identification : GetReaderConfigResponse = record p { identification = identification }
    unless_empty rest2 p_identification (do
      (p3, rest3) ←
          group (suc (length rest2)) get_reader_config_response_group1 p_identification rest2
      unless_empty rest3 p3 (do
        (p4, rest4) ← group (suc (length rest3)) get_reader_config_response_group2 p3 rest3
        unless_empty rest4 p4 (do
          (p5, rest5) ← group (suc (length rest4)) get_reader_config_response_group3 p4 rest4
          unless_empty rest5 p5 (do
            (events_and_reports, rest6) ← optional param_events_and_reports (beyond uint1) rest5
            let p_events_and_reports : GetReaderConfigResponse = record p5 {
              events_and_reports = events_and_reports;
            }
            unless_empty rest6 p_events_and_reports (do
              (p7, rest7) ←
                  group (suc (length rest6)) get_reader_config_response_group4 p_events_and_reports
                    rest6
              finished rest7 p7))))))
