-- ===== src/Llrp/Codec/StopTriggers.antt =====
-- What stops the other specs: generated code of pkg/llrp.
use device_rfid_llrp_go.Prelude.{
  ℕ, suc, true, false, Option, none, some, List, [], ◌∷◌, ◌++◌, ◌==◌, if◌then◌else◌, length,
  Outcome, ok, ◌>>=◌, ◌>>◌,
}
use device_rfid_llrp_go.Llrp.Bytes.{be16, be32, slice_from}
use device_rfid_llrp_go.Llrp.Params.{
  ParamHeader, ParamHeaders, header, nil, CodecError, has_enough_bytes,
}
use device_rfid_llrp_go.Llrp.Fields.{
  byte_at, uint16_at, uint32_at, finished, unless_empty, within, Cases, into, group, u8, ◌+++◌,
  maybe, add_sizes,
}
use device_rfid_llrp_go.Llrp.ParamTypes.{
  param_access_spec_stop_trigger, param_ai_spec_stop_trigger, param_gpi_trigger_value,
  param_rf_survey_spec_stop_trigger, param_tag_observation_trigger,
}
use device_rfid_llrp_go.Llrp.Codec.Triggers.{
  GpiTriggerValue, gpi_trigger_value_header, unmarshal_gpi_trigger_value,
}

pub record TagObservationTrigger : Type 0 where
  pub trigger : ℕ
  pub number_of_tags : ℕ
  pub number_of_attempts : ℕ
  pub t : ℕ
  pub timeout : ℕ

-- `TagObservationTrigger.getHeader` and `EncodeFields`
unfoldable pub tag_observation_trigger_header : TagObservationTrigger → ParamHeader
tag_observation_trigger_header p =
    header param_tag_observation_trigger 16
      ((u8 p.trigger ∷ 0 ∷ [])
        ++ be16 p.number_of_tags
        ++ be16 p.number_of_attempts
        ++ be16 p.t
        ++ be32 p.timeout)
      nil

-- `TagObservationTrigger.UnmarshalBinary`
unfoldable pub unmarshal_tag_observation_trigger : List ℕ → Outcome CodecError TagObservationTrigger
unmarshal_tag_observation_trigger bytes = do
  has_enough_bytes param_tag_observation_trigger 12 (length bytes) true
  trigger ← byte_at 0 bytes
  number_of_tags ← uint16_at 2 bytes
  number_of_attempts ← uint16_at 4 bytes
  t ← uint16_at 6 bytes
  timeout ← uint32_at 8 bytes
  ok (record {
    trigger = trigger;
    number_of_tags = number_of_tags;
    number_of_attempts = number_of_attempts;
    t = t;
    timeout = timeout;
  })

pub record AiSpecStopTrigger : Type 0 where
  pub trigger : ℕ
  pub duration_trigger_value : ℕ
  pub gpi_trigger : Option GpiTriggerValue
  pub tag_observation_trigger : Option TagObservationTrigger

-- `AISpecStopTrigger.getHeader` and `EncodeFields`
unfoldable pub ai_spec_stop_trigger_header : AiSpecStopTrigger → ParamHeader
ai_spec_stop_trigger_header p =
    let subs : ParamHeaders =
      maybe gpi_trigger_value_header p.gpi_trigger
      +++ maybe tag_observation_trigger_header p.tag_observation_trigger
      +++ nil in
    header param_ai_spec_stop_trigger (add_sizes 9 subs)
      ((u8 p.trigger ∷ []) ++ be32 p.duration_trigger_value) subs

unfoldable pub ai_spec_stop_trigger_group1 : Cases AiSpecStopTrigger
ai_spec_stop_trigger_group1 pt p =
    if pt == param_gpi_trigger_value
    then into (within unmarshal_gpi_trigger_value) (λ x. record p { gpi_trigger = some x })
    else if pt == param_tag_observation_trigger
    then into (within unmarshal_tag_observation_trigger)
        (λ x. record p { tag_observation_trigger = some x })
    else none

-- `AISpecStopTrigger.UnmarshalBinary`
unfoldable pub unmarshal_ai_spec_stop_trigger : List ℕ → Outcome CodecError AiSpecStopTrigger
unmarshal_ai_spec_stop_trigger bytes = do
  has_enough_bytes param_ai_spec_stop_trigger 5 (length bytes) false
  trigger ← byte_at 0 bytes
  duration_trigger_value ← uint32_at 1 bytes
  rest ← slice_from 5 bytes
  let p : AiSpecStopTrigger = record {
    trigger = trigger;
    duration_trigger_value = duration_trigger_value;
    gpi_trigger = none;
    tag_observation_trigger = none;
  }
  unless_empty rest p (do
    (p2, rest2) ← group (suc (length rest)) ai_spec_stop_trigger_group1 p rest
    finished rest2 p2)

pub record RfSurveySpecStopTrigger : Type 0 where
  pub trigger : ℕ
  pub duration : ℕ
  pub n : ℕ

-- `RFSurveySpecStopTrigger.getHeader` and `EncodeFields`
unfoldable pub rf_survey_spec_stop_trigger_header : RfSurveySpecStopTrigger → ParamHeader
rf_survey_spec_stop_trigger_header p =
    header param_rf_survey_spec_stop_trigger 13 ((u8 p.trigger ∷ []) ++ be32 p.duration ++ be32 p.n)
      nil

-- `RFSurveySpecStopTrigger.UnmarshalBinary`
unfoldable pub unmarshal_rf_survey_spec_stop_trigger :
    List ℕ → Outcome CodecError RfSurveySpecStopTrigger
unmarshal_rf_survey_spec_stop_trigger bytes = do
  has_enough_bytes param_rf_survey_spec_stop_trigger 9 (length bytes) true
  trigger ← byte_at 0 bytes
  duration ← uint32_at 1 bytes
  n ← uint32_at 5 bytes
  ok (record { trigger = trigger; duration = duration; n = n })

pub record AccessSpecStopTrigger : Type 0 where
  pub trigger : ℕ
  pub operation_count_value : ℕ

-- `AccessSpecStopTrigger.getHeader` and `EncodeFields`
unfoldable pub access_spec_stop_trigger_header : AccessSpecStopTrigger → ParamHeader
access_spec_stop_trigger_header p =
    header param_access_spec_stop_trigger 7 ((u8 p.trigger ∷ []) ++ be16 p.operation_count_value)
      nil

-- `AccessSpecStopTrigger.UnmarshalBinary`
unfoldable pub unmarshal_access_spec_stop_trigger :
    List ℕ → Outcome CodecError AccessSpecStopTrigger
unmarshal_access_spec_stop_trigger bytes = do
  has_enough_bytes param_access_spec_stop_trigger 3 (length bytes) true
  trigger ← byte_at 0 bytes
  operation_count_value ← uint16_at 1 bytes
  ok (record { trigger = trigger; operation_count_value = operation_count_value })
