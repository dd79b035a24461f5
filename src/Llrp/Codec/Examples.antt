-- ===== src/Llrp/Codec/Examples.antt =====
-- The theorems on the generated codec at concrete inputs.
use device_rfid_llrp_go.Prelude.{
  ◌<◌, ◌≡◌, ◌≢◌, true, none, some, List, [], ◌∷◌, ◌++◌, arith, length, ok, err,
}
use device_rfid_llrp_go.Llrp.Bytes.{be16, be32}
use device_rfid_llrp_go.Llrp.ParamTypes.{param_loop_spec}
use device_rfid_llrp_go.Llrp.Params.{
  CodecError, nil, encode_params, encode_param, head_bytes, is_tv,
}
use device_rfid_llrp_go.Llrp.Fields.{group, mixed_type, mixed_group, every, ◌+++◌}
use device_rfid_llrp_go.Llrp.Fields.Coded.{body}
use device_rfid_llrp_go.Llrp.Codec.OpSpecs.{C1g2Lock, c1g2_lock_group1}
use device_rfid_llrp_go.Llrp.Codec.Ends.{group-ends, c1g2_lock_group1-IsStrict}
use device_rfid_llrp_go.Llrp.Codec.Endless.{ro_spec_group2_endless, unmarshal_ai_spec_event_details}
use device_rfid_llrp_go.Llrp.Codec.Sightings.{
  zero_tag_report_data, Said, said_antenna_id, said_peak_rssi, written, told_all,
  tag_report_data_group2-written,
}
use device_rfid_llrp_go.Llrp.Codec.TagReports.{tag_report_data_group2}
use device_rfid_llrp_go.Llrp.Codec.TvScalars.{antenna_id_header, peak_rssi_header}
use device_rfid_llrp_go.Llrp.Codec.Scalars.{loop_spec_header}
use device_rfid_llrp_go.Llrp.Codec.Events.{
  AiSpecEvent, ai_spec_event_header, unmarshal_ai_spec_event,
}
use device_rfid_llrp_go.Llrp.Codec.Triggers.{GpiTriggerValue, gpi_trigger_value_header}
use device_rfid_llrp_go.Llrp.Codec.BoundarySpecs.{
  ro_spec_start_trigger_header, ro_spec_stop_trigger_header, ro_boundary_spec_header,
}
use device_rfid_llrp_go.Llrp.Codec.StopTriggers.{ai_spec_stop_trigger_header}
use device_rfid_llrp_go.Llrp.Codec.InventorySpecs.{
  inventory_parameter_spec_header, AiSpec, ai_spec_header,
}
use device_rfid_llrp_go.Llrp.Codec.RoSpecs.{RoSpec, ro_spec_header, ro_spec_group2}
use device_rfid_llrp_go.Llrp.Codec.RequestMessages.{marshal_add_ro_spec, unmarshal_add_ro_spec}
use device_rfid_llrp_go.Llrp.Codec.RoundTrip.RoSpecs.{IsRoSpec}
use device_rfid_llrp_go.Llrp.Codec.RoundTrip.InventorySpecs.{IsAiSpec}
use device_rfid_llrp_go.Llrp.Codec.RoundTrip.RequestMessages.{unmarshal_add_ro_spec-marshal}

-- An inventory of two antennas, which a falling edge on the first port stops.
abbrev an_edge : GpiTriggerValue
an_edge = record { port = 1; event = true; timeout = 500 }

abbrev an_ai_spec : AiSpec
an_ai_spec = record {
  antenna_ids = 1 ∷ 2 ∷ [];
  stop_trigger = record {
    trigger = 2;
    duration_trigger_value = 0;
    gpi_trigger = some an_edge;
    tag_observation_trigger = none;
  };
  inventory_parameter_specs =
      record {
        inventory_parameter_spec_id = 1;
        air_protocol_id = 1;
        antenna_configurations = [];
        custom = [];
      }
      ∷ [];
  custom = [];
}

abbrev an_ro_spec : RoSpec
an_ro_spec = record {
  ro_spec_id = 7;
  priority = 0;
  ro_spec_current_state = 0;
  ro_boundary_spec = record {
    start_trigger = record { trigger = 1; periodic_trigger = none; gpi_trigger = none };
    stop_trigger = record { trigger = 0; duration_trigger_value = 0; gpi_trigger_value = none };
  };
  ai_specs = an_ai_spec ∷ [];
  rf_survey_specs = [];
  custom = [];
  loop_spec = some 3;
  ro_report_spec = none;
}

an_ai_spec-IsAiSpec : IsAiSpec an_ai_spec
unfolding ai_spec_header ai_spec_stop_trigger_header gpi_trigger_value_header
    inventory_parameter_spec_header encode_params encode_param head_bytes is_tv
an_ai_spec-IsAiSpec = ground arith

an_ro_spec-IsRoSpec : IsRoSpec an_ro_spec
unfolding ro_spec_header ro_boundary_spec_header ro_spec_start_trigger_header
    ro_spec_stop_trigger_header ai_spec_header ai_spec_stop_trigger_header gpi_trigger_value_header
    inventory_parameter_spec_header loop_spec_header encode_params encode_param head_bytes is_tv
an_ro_spec-IsRoSpec = ground arith

unmarshal_add_ro_spec-marshal_example :
    unmarshal_add_ro_spec (marshal_add_ro_spec (record { ro_spec = an_ro_spec }))
    ≡ ok (record { ro_spec = an_ro_spec })
unmarshal_add_ro_spec-marshal_example =
    unmarshal_add_ro_spec-marshal (record { ro_spec = an_ro_spec }) an_ro_spec-IsRoSpec

ro_spec_group2_endless_example :
    group 1000 ro_spec_group2 an_ro_spec (be16 param_loop_spec ++ be16 0 ++ be32 5 ++ [])
    ≡ err CodecError.exhausted
ro_spec_group2_endless_example = ro_spec_group2_endless 1000 5 an_ro_spec []

abbrev an_end_of_spec : AiSpecEvent
an_end_of_spec = record { event = 0; ro_spec_id = 7; spec_index = 1; singulation_details = none }

unmarshal_ai_spec_event_details_example :
    unmarshal_ai_spec_event (
      body (
        ai_spec_event_header (record an_end_of_spec {
          singulation_details = some (record { num_collision_slots = 2; num_empty_slots = 9 });
        })))
    ≡ err (CodecError.trailing 5)
unmarshal_ai_spec_event_details_example =
    unmarshal_ai_spec_event_details an_end_of_spec
      (record { num_collision_slots = 2; num_empty_slots = 9 }) (omega arith) (omega arith)
      (omega arith) (omega arith) (omega arith)

abbrev seen : List Said
seen = said_antenna_id 2 ∷ said_peak_rssi 200 ∷ said_antenna_id 4 ∷ []

seen_fits : length (encode_params (every written seen +++ nil)) < 30
unfolding encode_params encode_param head_bytes is_tv antenna_id_header peak_rssi_header
seen_fits = omega arith

tag_report_data_group2-written_example :
    mixed_group mixed_type 30 tag_report_data_group2 zero_tag_report_data
      (encode_params (every written seen +++ nil))
    ≡ ok (told_all seen zero_tag_report_data, [])
tag_report_data_group2-written_example =
    tag_report_data_group2-written seen 30 zero_tag_report_data (ground arith) seen_fits

abbrev no_locks : C1g2Lock
no_locks = record { op_spec_id = 1; access_password = 0; c1g2_lock_payloads = [] }

group-ends_example :
    group 7 c1g2_lock_group1 no_locks (1 ∷ 89 ∷ 0 ∷ 0 ∷ 0 ∷ 0 ∷ []) ≢ err CodecError.exhausted
group-ends_example =
    group-ends c1g2_lock_group1 7 no_locks (1 ∷ 89 ∷ 0 ∷ 0 ∷ 0 ∷ 0 ∷ []) c1g2_lock_group1-IsStrict
      (omega arith)
