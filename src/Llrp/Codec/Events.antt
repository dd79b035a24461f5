-- ===== src/Llrp/Codec/Events.antt =====
-- The events of a reader: generated code of pkg/llrp.
use device_rfid_llrp_go.Prelude.{
  ℕ, ◌/◌, ◌^◌, Bool, true, false, not, Option, none, List, [], ◌∷◌, ◌++◌, ◌==◌, length, Outcome, ok,
  ◌>>=◌, ◌>>◌,
}
use device_rfid_llrp_go.Llrp.Bytes.{be16, be32, slice_from}
use device_rfid_llrp_go.Llrp.Params.{
  ParamHeader, ParamHeaders, header, nil, CodecError, has_enough_bytes,
}
use device_rfid_llrp_go.Llrp.Fields.{
  byte_at, uint16_at, uint32_at, finished, unless_empty, optional_tv_kept, u8, b2b, ◌+++◌, maybe,
  add_sizes,
}
use device_rfid_llrp_go.Llrp.ParamTypes.{
  param_ai_spec_event, param_antenna_event, param_c1g2_singulation_details,
  param_connection_close_event, param_gpi_event, param_report_buffer_overflow_error_event,
  param_rf_survey_event, param_ro_spec_event, param_spec_loop_event,
}
use device_rfid_llrp_go.Llrp.Codec.Identities.{
  C1g2SingulationDetails, c1g2_singulation_details_header, unmarshal_c1g2_singulation_details,
}

pub record GpiEvent : Type 0 where
  pub port : ℕ
  pub event : Bool

-- `GPIEvent.getHeader` and `EncodeFields`
unfoldable pub gpi_event_header : GpiEvent → ParamHeader
gpi_event_header p = header param_gpi_event 7 (be16 p.port ++ (b2b p.event 7 ∷ [])) nil

-- `GPIEvent.UnmarshalBinary`
unfoldable pub unmarshal_gpi_event : List ℕ → Outcome CodecError GpiEvent
unmarshal_gpi_event bytes = do
  has_enough_bytes param_gpi_event 3 (length bytes) true
  port ← uint16_at 0 bytes
  b2 ← byte_at 2 bytes
  ok (record { port = port; event = not (b2 / 2 ^ 7 == 0) })

pub record RoSpecEvent : Type 0 where
  pub event : ℕ
  pub ro_spec_id : ℕ
  pub preempting_ro_spec_id : ℕ

-- `ROSpecEvent.getHeader` and `EncodeFields`
unfoldable pub ro_spec_event_header : RoSpecEvent → ParamHeader
ro_spec_event_header p =
    header param_ro_spec_event 13
      ((u8 p.event ∷ []) ++ be32 p.ro_spec_id ++ be32 p.preempting_ro_spec_id) nil

-- `ROSpecEvent.UnmarshalBinary`
unfoldable pub unmarshal_ro_spec_event : List ℕ → Outcome CodecError RoSpecEvent
unmarshal_ro_spec_event bytes = do
  has_enough_bytes param_ro_spec_event 9 (length bytes) true
  event ← byte_at 0 bytes
  ro_spec_id ← uint32_at 1 bytes
  preempting_ro_spec_id ← uint32_at 5 bytes
  ok (record {
    event = event;
    ro_spec_id = ro_spec_id;
    preempting_ro_spec_id = preempting_ro_spec_id;
  })

-- `ReportBufferOverflowErrorEvent.getHeader` and `EncodeFields`
unfoldable pub report_buffer_overflow_error_event_header : Unit {0} → ParamHeader
report_buffer_overflow_error_event_header _ =
    header param_report_buffer_overflow_error_event 4 ([]) nil

-- `ReportBufferOverflowErrorEvent.UnmarshalBinary`
unfoldable pub unmarshal_report_buffer_overflow_error_event : List ℕ → Outcome CodecError (Unit {0})
unmarshal_report_buffer_overflow_error_event bytes = do
  has_enough_bytes param_report_buffer_overflow_error_event 0 (length bytes) true
  ok tt

pub record RfSurveyEvent : Type 0 where
  pub event : ℕ
  pub ro_spec_id : ℕ

-- `RFSurveyEvent.getHeader` and `EncodeFields`
unfoldable pub rf_survey_event_header : RfSurveyEvent → ParamHeader
rf_survey_event_header p =
    header param_rf_survey_event 9 ((u8 p.event ∷ []) ++ be32 p.ro_spec_id) nil

-- `RFSurveyEvent.UnmarshalBinary`
unfoldable pub unmarshal_rf_survey_event : List ℕ → Outcome CodecError RfSurveyEvent
unmarshal_rf_survey_event bytes = do
  has_enough_bytes param_rf_survey_event 5 (length bytes) true
  event ← byte_at 0 bytes
  ro_spec_id ← uint32_at 1 bytes
  ok (record { event = event; ro_spec_id = ro_spec_id })

pub record AiSpecEvent : Type 0 where
  pub event : ℕ
  pub ro_spec_id : ℕ
  pub spec_index : ℕ
  pub singulation_details : Option C1g2SingulationDetails

-- `AISpecEvent.getHeader` and `EncodeFields`
unfoldable pub ai_spec_event_header : AiSpecEvent → ParamHeader
ai_spec_event_header p =
    let subs : ParamHeaders = maybe c1g2_singulation_details_header p.singulation_details +++ nil in
    header param_ai_spec_event (add_sizes 11 subs)
      ((u8 p.event ∷ []) ++ be32 p.ro_spec_id ++ be16 p.spec_index) subs

-- `AISpecEvent.UnmarshalBinary`
unfoldable pub unmarshal_ai_spec_event : List ℕ → Outcome CodecError AiSpecEvent
unmarshal_ai_spec_event bytes = do
  has_enough_bytes param_ai_spec_event 7 (length bytes) false
  event ← byte_at 0 bytes
  ro_spec_id ← uint32_at 1 bytes
  spec_index ← uint16_at 5 bytes
  rest ← slice_from 7 bytes
  let p : AiSpecEvent = record {
    event = event;
    ro_spec_id = ro_spec_id;
    spec_index = spec_index;
    singulation_details = none;
  }
  unless_empty rest p (do
    singulation_details ←
        optional_tv_kept param_c1g2_singulation_details 5 unmarshal_c1g2_singulation_details rest
    let p_singulation_details : AiSpecEvent = record p { singulation_details = singulation_details }
    finished rest p_singulation_details)

pub record AntennaEvent : Type 0 where
  pub event : ℕ
  pub antenna_id : ℕ

-- `AntennaEvent.getHeader` and `EncodeFields`
unfoldable pub antenna_event_header : AntennaEvent → ParamHeader
antenna_event_header p = header param_antenna_event 7 ((u8 p.event ∷ []) ++ be16 p.antenna_id) nil

-- `AntennaEvent.UnmarshalBinary`
unfoldable pub unmarshal_antenna_event : List ℕ → Outcome CodecError AntennaEvent
unmarshal_antenna_event bytes = do
  has_enough_bytes param_antenna_event 3 (length bytes) true
  event ← byte_at 0 bytes
  antenna_id ← uint16_at 1 bytes
  ok (record { event = event; antenna_id = antenna_id })

-- `ConnectionCloseEvent.getHeader` and `EncodeFields`
unfoldable pub connection_close_event_header : Unit {0} → ParamHeader
connection_close_event_header _ = header param_connection_close_event 4 ([]) nil

-- `ConnectionCloseEvent.UnmarshalBinary`
unfoldable pub unmarshal_connection_close_event : List ℕ → Outcome CodecError (Unit {0})
unmarshal_connection_close_event bytes = do
  has_enough_bytes param_connection_close_event 0 (length bytes) true
  ok tt

pub record SpecLoopEvent : Type 0 where
  pub ro_spec_id : ℕ
  pub loop_count : ℕ

-- `SpecLoopEvent.getHeader` and `EncodeFields`
unfoldable pub spec_loop_event_header : SpecLoopEvent → ParamHeader
spec_loop_event_header p =
    header param_spec_loop_event 12 (be32 p.ro_spec_id ++ be32 p.loop_count) nil

-- `SpecLoopEvent.UnmarshalBinary`
unfoldable pub unmarshal_spec_loop_event : List ℕ → Outcome CodecError SpecLoopEvent
unmarshal_spec_loop_event bytes = do
  has_enough_bytes param_spec_loop_event 8 (length bytes) true
  ro_spec_id ← uint32_at 0 bytes
  loop_count ← uint32_at 4 bytes
  ok (record { ro_spec_id = ro_spec_id; loop_count = loop_count })
