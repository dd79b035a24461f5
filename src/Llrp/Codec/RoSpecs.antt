-- ===== src/Llrp/Codec/RoSpecs.antt =====
-- `ROSpec`, and the survey of frequencies in it: generated code of pkg/llrp.
use device_rfid_llrp_go.Prelude.{
  ℕ, suc, false, Option, none, some, List, [], ◌∷◌, ◌++◌, ◌==◌, if◌then◌else◌, length, Outcome,
  ◌>>=◌, ◌>>◌,
}
use device_rfid_llrp_go.Llrp.Bytes.{be16, be32, uint32, slice_from}
use device_rfid_llrp_go.Llrp.Params.{
  ParamHeader, ParamHeaders, header, nil, CodecError, has_enough_bytes,
}
use device_rfid_llrp_go.Llrp.Fields.{
  byte_at, uint16_at, uint32_at, finished, unless_empty, within, beyond, required, Cases, into,
  group, u8, ◌+++◌, one, every, maybe, add_sizes,
}
use device_rfid_llrp_go.Llrp.ParamTypes.{
  param_ai_spec, param_custom, param_loop_spec, param_rf_survey_spec,
  param_rf_survey_spec_stop_trigger, param_ro_boundary_spec, param_ro_report_spec, param_ro_spec,
}
use device_rfid_llrp_go.Llrp.Codec.Scalars.{loop_spec_header}
use device_rfid_llrp_go.Llrp.Codec.Identities.{Custom, custom_header, unmarshal_custom}
use device_rfid_llrp_go.Llrp.Codec.BoundarySpecs.{
  RoBoundarySpec, ro_boundary_spec_header, unmarshal_ro_boundary_spec,
}
use device_rfid_llrp_go.Llrp.Codec.StopTriggers.{
  RfSurveySpecStopTrigger, rf_survey_spec_stop_trigger_header,
  unmarshal_rf_survey_spec_stop_trigger,
}
use device_rfid_llrp_go.Llrp.Codec.ReportSpecs.{
  RoReportSpec, ro_report_spec_header, unmarshal_ro_report_spec,
}
use device_rfid_llrp_go.Llrp.Codec.InventorySpecs.{AiSpec, ai_spec_header, unmarshal_ai_spec}

pub record RfSurveySpec : Type 0 where
  pub antenna_id : ℕ
  pub start_frequency : ℕ
  pub end_frequency : ℕ
  pub trigger : RfSurveySpecStopTrigger
  pub custom : List Custom

-- `RFSurveySpec.getHeader` and `EncodeFields`
unfoldable pub rf_survey_spec_header : RfSurveySpec → ParamHeader
rf_survey_spec_header p =
    let subs : ParamHeaders =
      one (rf_survey_spec_stop_trigger_header p.trigger) +++ every custom_header p.custom +++ nil in
    header param_rf_survey_spec (add_sizes 14 subs)
      (be16 p.antenna_id ++ be32 p.start_frequency ++ be32 p.end_frequency) subs

unfoldable pub rf_survey_spec_group1 : Cases RfSurveySpec
rf_survey_spec_group1 pt p =
    if pt == param_custom
    then into (within unmarshal_custom) (λ x. record p { custom = p.custom ++ (x ∷ []) })
    else none

-- `RFSurveySpec.UnmarshalBinary`
unfoldable pub unmarshal_rf_survey_spec : List ℕ → Outcome CodecError RfSurveySpec
unmarshal_rf_survey_spec bytes = do
  has_enough_bytes param_rf_survey_spec 23 (length bytes) false
  antenna_id ← uint16_at 0 bytes
  start_frequency ← uint32_at 2 bytes
  end_frequency ← uint32_at 6 bytes
  rest ← slice_from 10 bytes
  (trigger, rest2) ←
      required param_rf_survey_spec_stop_trigger (within unmarshal_rf_survey_spec_stop_trigger) rest
  let p : RfSurveySpec = record {
    antenna_id = antenna_id;
    start_frequency = start_frequency;
    end_frequency = end_frequency;
    trigger = trigger;
    custom = [];
  }
  unless_empty rest2 p
      (do (p3, rest3) ← group (suc (length rest2)) rf_survey_spec_group1 p rest2; finished rest3 p3)

pub record RoSpec : Type 0 where
  pub ro_spec_id : ℕ
  pub priority : ℕ
  pub ro_spec_current_state : ℕ
  pub ro_boundary_spec : RoBoundarySpec
  pub ai_specs : List AiSpec
  pub rf_survey_specs : List RfSurveySpec
  pub custom : List Custom
  pub loop_spec : Option ℕ
  pub ro_report_spec : Option RoReportSpec

-- `ROSpec.getHeader` and `EncodeFields`
unfoldable pub ro_spec_header : RoSpec → ParamHeader
ro_spec_header p =
    let subs : ParamHeaders =
      one (ro_boundary_spec_header p.ro_boundary_spec)
      +++ every ai_spec_header p.ai_specs
      +++ every rf_survey_spec_header p.rf_survey_specs
      +++ every custom_header p.custom
      +++ maybe loop_spec_header p.loop_spec
      +++ maybe ro_report_spec_header p.ro_report_spec
      +++ nil in
    header param_ro_spec (add_sizes 10 subs)
      (be32 p.ro_spec_id ++ (p.priority ∷ u8 p.ro_spec_current_state ∷ [])) subs

unfoldable pub ro_spec_group1 : Cases RoSpec
ro_spec_group1 pt p =
    if pt == param_ai_spec
    then into (within unmarshal_ai_spec) (λ x. record p { ai_specs = p.ai_specs ++ (x ∷ []) })
    else if pt == param_rf_survey_spec
    then into (within unmarshal_rf_survey_spec)
        (λ x. record p { rf_survey_specs = p.rf_survey_specs ++ (x ∷ []) })
    else if pt == param_custom
    then into (within unmarshal_custom) (λ x. record p { custom = p.custom ++ (x ∷ []) })
    else none

unfoldable pub ro_spec_group2 : Cases RoSpec
ro_spec_group2 pt p =
    if pt == param_loop_spec
    then into (beyond uint32) (λ x. record p { loop_spec = some x })
    else if pt == param_ro_report_spec
    then into (within unmarshal_ro_report_spec) (λ x. record p { ro_report_spec = some x })
    else none

-- `ROSpec.UnmarshalBinary`
unfoldable pub unmarshal_ro_spec : List ℕ → Outcome CodecError RoSpec
unmarshal_ro_spec bytes = do
  has_enough_bytes param_ro_spec 15 (length bytes) false
  ro_spec_id ← uint32_at 0 bytes
  priority ← byte_at 4 bytes
  ro_spec_current_state ← byte_at 5 bytes
  rest ← slice_from 6 bytes
  (ro_boundary_spec, rest2) ←
      required param_ro_boundary_spec (within unmarshal_ro_boundary_spec) rest
  let p : RoSpec = record {
    ro_spec_id = ro_spec_id;
    priority = priority;
    ro_spec_current_state = ro_spec_current_state;
    ro_boundary_spec = ro_boundary_spec;
    ai_specs = [];
    rf_survey_specs = [];
    custom = [];
    loop_spec = none;
    ro_report_spec = none;
  }
  unless_empty rest2 p (do
    (p3, rest3) ← group (suc (length rest2)) ro_spec_group1 p rest2
    unless_empty rest3 p3
        (do (p4, rest4) ← group (suc (length rest3)) ro_spec_group2 p3 rest3; finished rest4 p4))
