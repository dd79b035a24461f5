-- ===== src/Llrp/Codec/RoundTrip/StopTriggers.antt =====
-- What stops the other specs.
use device_rfid_llrp_go.Prelude.{
  ℕ, suc, ◌≤◌, ◌≡◌, refl, true, false, none, List, [], ◌∷◌, ◌++◌, arith, length, ok, IsU8, IsU16,
  IsU32,
}
use device_rfid_llrp_go.Llrp.Bytes.{be32}
use device_rfid_llrp_go.Llrp.Params.{ParamHeaders, nil, has_enough_bytes, encode_params, is_tv}
use device_rfid_llrp_go.Llrp.ParamTypes.{
  param_ai_spec_stop_trigger, param_rf_survey_spec_stop_trigger, param_tag_observation_trigger,
}
use device_rfid_llrp_go.Llrp.Fields.{group, u8, ◌+++◌, maybe}
use device_rfid_llrp_go.Llrp.Fields.Coded.{
  Fits, IfSome, IfSome-map, Coding, IsRead, coding, IsCoded, coding-IsRead, enough-of-ok,
}
use device_rfid_llrp_go.Llrp.Fields.Groups.{Gives-nil, Gives-maybe, group-empty}
use device_rfid_llrp_go.Llrp.Fields.Sized.{IsWritten-subs, AllSized-maybe}
use device_rfid_llrp_go.Llrp.Codec.Triggers.{gpi_trigger_value_header}
use device_rfid_llrp_go.Llrp.Codec.StopTriggers.{
  TagObservationTrigger, tag_observation_trigger_header, unmarshal_tag_observation_trigger,
  AiSpecStopTrigger, ai_spec_stop_trigger_header, unmarshal_ai_spec_stop_trigger,
  ai_spec_stop_trigger_group1, RfSurveySpecStopTrigger, rf_survey_spec_stop_trigger_header,
  unmarshal_rf_survey_spec_stop_trigger,
}
use device_rfid_llrp_go.Llrp.Codec.RoundTrip.Triggers.{
  IsGpiTriggerValue, gpi_trigger_value_coding, gpi_trigger_value-IsRead,
}

abbrev pub IsTagObservationTrigger : TagObservationTrigger → Type 0
IsTagObservationTrigger p =
    IsU8 p.trigger
    × IsU16 p.number_of_tags
    × IsU16 p.number_of_attempts
    × IsU16 p.t
    × IsU32 p.timeout

abbrev pub tag_observation_trigger_coding : Coding TagObservationTrigger
tag_observation_trigger_coding =
    coding param_tag_observation_trigger tag_observation_trigger_header
      unmarshal_tag_observation_trigger

pub tag_observation_trigger_header-IsCoded :
    (p : TagObservationTrigger)
    → IsTagObservationTrigger p
    → IsCoded param_tag_observation_trigger tag_observation_trigger_header
        unmarshal_tag_observation_trigger p
unfolding unmarshal_tag_observation_trigger tag_observation_trigger_header has_enough_bytes
    encode_params is_tv
tag_observation_trigger_header-IsCoded p v = ground arith

pub tag_observation_trigger-IsRead :
    (x : TagObservationTrigger)
    → IsTagObservationTrigger x
    → IsRead tag_observation_trigger_coding x
tag_observation_trigger-IsRead x v =
    coding-IsRead param_tag_observation_trigger tag_observation_trigger_header
      unmarshal_tag_observation_trigger x (tag_observation_trigger_header-IsCoded x v)

abbrev pub IsAiSpecStopTrigger : AiSpecStopTrigger → Type 0
IsAiSpecStopTrigger p =
    IsU8 p.trigger
    × IsU32 p.duration_trigger_value
    × IfSome IsGpiTriggerValue p.gpi_trigger
    × IfSome IsTagObservationTrigger p.tag_observation_trigger
    × Fits (ai_spec_stop_trigger_header p)

abbrev pub ai_spec_stop_trigger_coding : Coding AiSpecStopTrigger
ai_spec_stop_trigger_coding =
    coding param_ai_spec_stop_trigger ai_spec_stop_trigger_header unmarshal_ai_spec_stop_trigger

ai_spec_stop_trigger_read :
    (p : AiSpecStopTrigger) (rest : List ℕ)
    → IsU8 p.trigger
    → IsU32 p.duration_trigger_value
    → 5 ≤ length (((u8 p.trigger ∷ []) ++ be32 p.duration_trigger_value) ++ rest)
    → group
        (suc (length rest))
        ai_spec_stop_trigger_group1
        (record p { gpi_trigger = none; tag_observation_trigger = none })
        rest
      ≡ ok (p, [])
    → unmarshal_ai_spec_stop_trigger
        (((u8 p.trigger ∷ []) ++ be32 p.duration_trigger_value) ++ rest)
      ≡ ok p
unfolding unmarshal_ai_spec_stop_trigger has_enough_bytes
ai_spec_stop_trigger_read p rest b0 b1 h1 h2 = ground (
  arith,
  group-empty ai_spec_stop_trigger_group1 rest []
      (record p { gpi_trigger = none; tag_observation_trigger = none }) (p) h2,
)

pub ai_spec_stop_trigger_header-IsCoded :
    (p : AiSpecStopTrigger)
    → IsAiSpecStopTrigger p
    → IsCoded param_ai_spec_stop_trigger ai_spec_stop_trigger_header unmarshal_ai_spec_stop_trigger
        p
unfolding ai_spec_stop_trigger_header is_tv ai_spec_stop_trigger_group1
ai_spec_stop_trigger_header-IsCoded p (b0, b1, c0, c1, fits) =
    let i0 : IfSome (IsRead gpi_trigger_value_coding) p.gpi_trigger =
      IfSome-map gpi_trigger_value-IsRead p.gpi_trigger c0 in
    let i1 : IfSome (IsRead tag_observation_trigger_coding) p.tag_observation_trigger =
      IfSome-map tag_observation_trigger-IsRead p.tag_observation_trigger c1 in
    let k1 : ParamHeaders =
      maybe tag_observation_trigger_header p.tag_observation_trigger +++ nil in
    let k0 : ParamHeaders = maybe gpi_trigger_value_header p.gpi_trigger +++ k1 in
    (
      IsWritten-subs param_ai_spec_stop_trigger 9
          ((u8 p.trigger ∷ []) ++ be32 p.duration_trigger_value) _ refl (omega arith) refl
          (AllSized-maybe gpi_trigger_value_coding p.gpi_trigger _ i0
            (AllSized-maybe tag_observation_trigger_coding p.tag_observation_trigger _ i1 tt))
          fits,
      refl,
      ai_spec_stop_trigger_read p (encode_params k0) b0 b1 (omega (arith)) (
          (Gives-maybe ai_spec_stop_trigger_group1 gpi_trigger_value_coding
              (λ o. record p { gpi_trigger = o; tag_observation_trigger = none }) p.gpi_trigger _ _
              refl i0
              (Gives-maybe ai_spec_stop_trigger_group1 tag_observation_trigger_coding
                (λ o. record p { tag_observation_trigger = o }) p.tag_observation_trigger _ _ refl
                i1 (Gives-nil ai_spec_stop_trigger_group1 p)))
            _ (omega arith)),
    )

pub ai_spec_stop_trigger_enough :
    (bytes : List ℕ) (p : AiSpecStopTrigger)
    → unmarshal_ai_spec_stop_trigger bytes ≡ ok p
    → 5 ≤ length bytes
unfolding unmarshal_ai_spec_stop_trigger
ai_spec_stop_trigger_enough bytes p e =
    enough-of-ok param_ai_spec_stop_trigger 5 (length bytes) false _ p e

pub ai_spec_stop_trigger-IsRead :
    (x : AiSpecStopTrigger) → IsAiSpecStopTrigger x → IsRead ai_spec_stop_trigger_coding x
ai_spec_stop_trigger-IsRead x v =
    coding-IsRead param_ai_spec_stop_trigger ai_spec_stop_trigger_header
      unmarshal_ai_spec_stop_trigger x (ai_spec_stop_trigger_header-IsCoded x v)

abbrev pub IsRfSurveySpecStopTrigger : RfSurveySpecStopTrigger → Type 0
IsRfSurveySpecStopTrigger p = IsU8 p.trigger × IsU32 p.duration × IsU32 p.n

abbrev pub rf_survey_spec_stop_trigger_coding : Coding RfSurveySpecStopTrigger
rf_survey_spec_stop_trigger_coding =
    coding param_rf_survey_spec_stop_trigger rf_survey_spec_stop_trigger_header
      unmarshal_rf_survey_spec_stop_trigger

pub rf_survey_spec_stop_trigger_header-IsCoded :
    (p : RfSurveySpecStopTrigger)
    → IsRfSurveySpecStopTrigger p
    → IsCoded param_rf_survey_spec_stop_trigger rf_survey_spec_stop_trigger_header
        unmarshal_rf_survey_spec_stop_trigger p
unfolding unmarshal_rf_survey_spec_stop_trigger rf_survey_spec_stop_trigger_header has_enough_bytes
    encode_params is_tv
rf_survey_spec_stop_trigger_header-IsCoded p v = ground arith

pub rf_survey_spec_stop_trigger_enough :
    (bytes : List ℕ) (p : RfSurveySpecStopTrigger)
    → unmarshal_rf_survey_spec_stop_trigger bytes ≡ ok p
    → 9 ≤ length bytes
unfolding unmarshal_rf_survey_spec_stop_trigger
rf_survey_spec_stop_trigger_enough bytes p e =
    enough-of-ok param_rf_survey_spec_stop_trigger 9 (length bytes) true _ p e

pub rf_survey_spec_stop_trigger-IsRead :
    (x : RfSurveySpecStopTrigger)
    → IsRfSurveySpecStopTrigger x
    → IsRead rf_survey_spec_stop_trigger_coding x
rf_survey_spec_stop_trigger-IsRead x v =
    coding-IsRead param_rf_survey_spec_stop_trigger rf_survey_spec_stop_trigger_header
      unmarshal_rf_survey_spec_stop_trigger x (rf_survey_spec_stop_trigger_header-IsCoded x v)
