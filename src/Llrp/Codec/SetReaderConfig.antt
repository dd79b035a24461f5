-- ===== src/Llrp/Codec/SetReaderConfig.antt =====
-- `SetReaderConfig`: generated code of pkg/llrp.
use device_rfid_llrp_go.Prelude.{
  ℕ, suc, ◌/◌, ◌^◌, Bool, not, Option, none, some, List, [], ◌∷◌, ◌++◌, leb, ◌==◌, if◌then◌else◌,
  length, Outcome, ◌>>=◌, ◌>>◌, guard,
}
use device_rfid_llrp_go.Llrp.Bytes.{uint8, slice_from}
use device_rfid_llrp_go.Llrp.Params.{nil, CodecError, encode_params}
use device_rfid_llrp_go.Llrp.Fields.{
  byte_at, uint1, finished, unless_empty, within, beyond, optional, Cases, into, group, b2b, ◌+++◌,
  every, maybe,
}
use device_rfid_llrp_go.Llrp.ParamTypes.{
  param_access_report_spec, param_antenna_configuration, param_antenna_properties, param_custom,
  param_events_and_reports, param_gpi_port_current_state, param_gpo_write_data,
  param_keep_alive_spec, param_reader_event_notification_spec, param_ro_report_spec,
}
use device_rfid_llrp_go.Llrp.MessageTypes as MessageTypes
use device_rfid_llrp_go.Llrp.Codec.Scalars.{events_and_reports_header, access_report_spec_header}
use device_rfid_llrp_go.Llrp.Codec.Identities.{Custom, custom_header, unmarshal_custom}
use device_rfid_llrp_go.Llrp.Codec.Antennas.{
  AntennaProperties, antenna_properties_header, unmarshal_antenna_properties, AntennaConfiguration,
  antenna_configuration_header, unmarshal_antenna_configuration, GpiPortCurrentState,
  gpi_port_current_state_header, unmarshal_gpi_port_current_state, GpoWriteData,
  gpo_write_data_header, unmarshal_gpo_write_data, KeepAliveSpec, keep_alive_spec_header,
  unmarshal_keep_alive_spec,
}
use device_rfid_llrp_go.Llrp.Codec.ReportSpecs.{
  RoReportSpec, ro_report_spec_header, unmarshal_ro_report_spec, ReaderEventNotificationSpec,
  reader_event_notification_spec_header, unmarshal_reader_event_notification_spec,
}

pub record SetReaderConfig : Type 0 where
  pub reset_to_factory_defaults : Bool
  pub reader_event_notification_spec : Option ReaderEventNotificationSpec
  pub antenna_properties : List AntennaProperties
  pub antenna_configurations : List AntennaConfiguration
  pub ro_report_spec : Option RoReportSpec
  pub access_report_spec : Option ℕ
  pub keep_alive_spec : Option KeepAliveSpec
  pub gpo_write_data : List GpoWriteData
  pub gpi_port_current_states : List GpiPortCurrentState
  pub events_and_reports : Option Bool
  pub custom : List Custom

-- `SetReaderConfig.MarshalBinary`
unfoldable pub marshal_set_reader_config : SetReaderConfig → List ℕ
marshal_set_reader_config p =
    (b2b p.reset_to_factory_defaults 7 ∷ [])
    ++ encode_params (
        maybe reader_event_notification_spec_header p.reader_event_notification_spec
        +++ every antenna_properties_header p.antenna_properties
        +++ every antenna_configuration_header p.antenna_configurations
        +++ maybe ro_report_spec_header p.ro_report_spec
        +++ maybe access_report_spec_header p.access_report_spec
        +++ maybe keep_alive_spec_header p.keep_alive_spec
        +++ every gpo_write_data_header p.gpo_write_data
        +++ every gpi_port_current_state_header p.gpi_port_current_states
        +++ maybe events_and_reports_header p.events_and_reports
        +++ every custom_header p.custom
        +++ nil)

unfoldable pub set_reader_config_group1 : Cases SetReaderConfig
set_reader_config_group1 pt p =
    if pt == param_antenna_properties
    then into (within unmarshal_antenna_properties)
        (λ x. record p { antenna_properties = p.antenna_properties ++ (x ∷ []) })
    else if pt == param_antenna_configuration
    then into (within unmarshal_antenna_configuration)
        (λ x. record p { antenna_configurations = p.antenna_configurations ++ (x ∷ []) })
    else none

unfoldable pub set_reader_config_group2 : Cases SetReaderConfig
set_reader_config_group2 pt p =
    if pt == param_ro_report_spec
    then into (within unmarshal_ro_report_spec) (λ x. record p { ro_report_spec = some x })
    else if pt == param_access_report_spec
    then into (beyond uint8) (λ x. record p { access_report_spec = some x })
    else if pt == param_keep_alive_spec
    then into (within unmarshal_keep_alive_spec) (λ x. record p { keep_alive_spec = some x })
    else none

unfoldable pub set_reader_config_group3 : Cases SetReaderConfig
set_reader_config_group3 pt p =
    if pt == param_gpo_write_data
    then into (within unmarshal_gpo_write_data)
        (λ x. record p { gpo_write_data = p.gpo_write_data ++ (x ∷ []) })
    else if pt == param_gpi_port_current_state
    then into (within unmarshal_gpi_port_current_state)
        (λ x. record p { gpi_port_current_states = p.gpi_port_current_states ++ (x ∷ []) })
    else none

unfoldable pub set_reader_config_group4 : Cases SetReaderConfig
set_reader_config_group4 pt p =
    if pt == param_custom
    then into (within unmarshal_custom) (λ x. record p { custom = p.custom ++ (x ∷ []) })
    else none

-- `SetReaderConfig.UnmarshalBinary`
unfoldable pub unmarshal_set_reader_config : List ℕ → Outcome CodecError SetReaderConfig
unmarshal_set_reader_config bytes = do
  guard (leb 1 (length bytes))
      (CodecError.wrong_length MessageTypes.set_reader_config (length bytes))
  b0 ← byte_at 0 bytes
  rest ← slice_from 1 bytes
  let p : SetReaderConfig = record {
    reset_to_factory_defaults = not (b0 / 2 ^ 7 == 0);
    reader_event_notification_spec = none;
    antenna_properties = [];
    antenna_configurations = [];
    ro_report_spec = none;
    access_report_spec = none;
    keep_alive_spec = none;
    gpo_write_data = [];
    gpi_port_current_states = [];
    events_and_reports = none;
    custom = [];
  }
  unless_empty rest p (do
    (reader_event_notification_spec, rest2) ←
        optional param_reader_event_notification_spec
          (within unmarshal_reader_event_notification_spec) rest
    let p_reader_event_notification_spec : SetReaderConfig = record p {
      reader_event_notification_spec = reader_event_notification_spec;
    }
    unless_empty rest2 p_reader_event_notification_spec (do
      (p3, rest3) ←
          group (suc (length rest2)) set_reader_config_group1 p_reader_event_notification_spec rest2
      unless_empty rest3 p3 (do
        (p4, rest4) ← group (suc (length rest3)) set_reader_config_group2 p3 rest3
        unless_empty rest4 p4 (do
          (p5, rest5) ← group (suc (length rest4)) set_reader_config_group3 p4 rest4
          unless_empty rest5 p5 (do
            (events_and_reports, rest6) ← optional param_events_and_reports (beyond uint1) rest5
            let p_events_and_reports : SetReaderConfig = record p5 {
              events_and_reports = events_and_reports;
            }
            unless_empty rest6 p_events_and_reports (do
              (p7, rest7) ←
                  group (suc (length rest6)) set_reader_config_group4 p_events_and_reports rest6
              finished rest7 p7))))))
