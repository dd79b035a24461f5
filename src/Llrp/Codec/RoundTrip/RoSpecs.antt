-- ===== src/Llrp/Codec/RoundTrip/RoSpecs.antt =====
-- `ROSpec`, and the survey of frequencies in it.
use device_rfid_llrp_go.Prelude.{
  ℕ, suc, ◌≤◌, ◌≡◌, refl, false, none, List, [], ◌∷◌, ◌++◌, arith, length, ok, IsU8, IsU16, IsU32,
  All,
}
use device_rfid_llrp_go.Llrp.Bytes.{be16, be32}
use device_rfid_llrp_go.Llrp.Params.{ParamHeaders, nil, has_enough_bytes, encode_params, is_tv}
use device_rfid_llrp_go.Llrp.ParamTypes.{param_rf_survey_spec, param_ro_spec}
use device_rfid_llrp_go.Llrp.Fields.{required, group, u8, ◌+++◌, one, every, maybe}
use device_rfid_llrp_go.Llrp.Fields.Coded.{
  body, Fits, IfSome, IfSome-map, All-map, Coding, IsRead, coding, IsCoded, coding-IsRead,
  length-encode_params-cons, enough-of-ok, required-cons,
}
use device_rfid_llrp_go.Llrp.Fields.Groups.{
  Gives-foreign, Gives-nil, Gives-every, Gives-maybe, maybe-IsForeign, group-empty,
}
use device_rfid_llrp_go.Llrp.Fields.Sized.{IsWritten-subs, AllSized-every, AllSized-maybe}
use device_rfid_llrp_go.Llrp.Codec.Scalars.{loop_spec_header}
use device_rfid_llrp_go.Llrp.Codec.Identities.{custom_header}
use device_rfid_llrp_go.Llrp.Codec.BoundarySpecs.{ro_boundary_spec_header}
use device_rfid_llrp_go.Llrp.Codec.StopTriggers.{rf_survey_spec_stop_trigger_header}
use device_rfid_llrp_go.Llrp.Codec.ReportSpecs.{ro_report_spec_header}
use device_rfid_llrp_go.Llrp.Codec.InventorySpecs.{ai_spec_header}
use device_rfid_llrp_go.Llrp.Codec.RoSpecs.{
  RfSurveySpec, rf_survey_spec_header, unmarshal_rf_survey_spec, rf_survey_spec_group1, RoSpec,
  ro_spec_header, unmarshal_ro_spec, ro_spec_group1, ro_spec_group2,
}
use device_rfid_llrp_go.Llrp.Codec.RoundTrip.Scalars.{loop_spec_coding, loop_spec-IsRead}
use device_rfid_llrp_go.Llrp.Codec.RoundTrip.Identities.{IsCustom, custom_coding, custom-IsRead}
use device_rfid_llrp_go.Llrp.Codec.RoundTrip.BoundarySpecs.{
  IsRoBoundarySpec, ro_boundary_spec_coding, ro_boundary_spec_header-IsCoded,
  ro_boundary_spec_enough, ro_boundary_spec-IsRead,
}
use device_rfid_llrp_go.Llrp.Codec.RoundTrip.StopTriggers.{
  IsRfSurveySpecStopTrigger, rf_survey_spec_stop_trigger_coding,
  rf_survey_spec_stop_trigger_header-IsCoded, rf_survey_spec_stop_trigger_enough,
  rf_survey_spec_stop_trigger-IsRead,
}
use device_rfid_llrp_go.Llrp.Codec.RoundTrip.ReportSpecs.{
  IsRoReportSpec, ro_report_spec_coding, ro_report_spec-IsRead,
}
use device_rfid_llrp_go.Llrp.Codec.RoundTrip.InventorySpecs.{
  IsAiSpec, ai_spec_coding, ai_spec-IsRead,
}

abbrev pub IsRfSurveySpec : RfSurveySpec → Type 0
IsRfSurveySpec p =
    IsU16 p.antenna_id
    × IsU32 p.start_frequency
    × IsU32 p.end_frequency
    × IsRfSurveySpecStopTrigger p.trigger
    × All IsCustom p.custom
    × Fits (rf_survey_spec_header p)

abbrev pub rf_survey_spec_coding : Coding RfSurveySpec
rf_survey_spec_coding = coding param_rf_survey_spec rf_survey_spec_header unmarshal_rf_survey_spec

rf_survey_spec_read :
    (p : RfSurveySpec) (rest rest2 : List ℕ)
    → IsU16 p.antenna_id
    → IsU32 p.start_frequency
    → IsU32 p.end_frequency
    → 23 ≤ length ((be16 p.antenna_id ++ be32 p.start_frequency ++ be32 p.end_frequency) ++ rest)
    → required
        (rf_survey_spec_stop_trigger_coding.of_type)
        (rf_survey_spec_stop_trigger_coding.read)
        rest
      ≡ ok (p.trigger, rest2)
    → group (suc (length rest2)) rf_survey_spec_group1 (record p { custom = [] }) rest2 ≡ ok (p, [])
    → unmarshal_rf_survey_spec
        ((be16 p.antenna_id ++ be32 p.start_frequency ++ be32 p.end_frequency) ++ rest)
      ≡ ok p
unfolding unmarshal_rf_survey_spec has_enough_bytes
rf_survey_spec_read p rest rest2 b0 b1 b2 h1 h2 h3 =
    ground (arith, group-empty rf_survey_spec_group1 rest2 [] (record p { custom = [] }) (p) h3)

pub rf_survey_spec_header-IsCoded :
    (p : RfSurveySpec)
    → IsRfSurveySpec p
    → IsCoded param_rf_survey_spec rf_survey_spec_header unmarshal_rf_survey_spec p
unfolding rf_survey_spec_header is_tv rf_survey_spec_group1
rf_survey_spec_header-IsCoded p (b0, b1, b2, c0, c1, fits) =
    let i0 = rf_survey_spec_stop_trigger-IsRead p.trigger c0 in
    let i1 : All (IsRead custom_coding) p.custom = All-map custom-IsRead p.custom c1 in
    let k1 : ParamHeaders = every custom_header p.custom +++ nil in
    let k0 : ParamHeaders = one (rf_survey_spec_stop_trigger_header p.trigger) +++ k1 in
    (
      IsWritten-subs param_rf_survey_spec 14
          (be16 p.antenna_id ++ be32 p.start_frequency ++ be32 p.end_frequency) _ refl (omega arith)
          refl (i0.0.0, (AllSized-every custom_coding p.custom _ i1 tt)) fits,
      refl,
      rf_survey_spec_read p (encode_params k0) (encode_params k1) b0 b1 b2
          (omega (
            arith,
            length-encode_params-cons (rf_survey_spec_stop_trigger_header p.trigger) k1 (i0.0),
            rf_survey_spec_stop_trigger_enough (body (rf_survey_spec_stop_trigger_header p.trigger))
                p.trigger ((rf_survey_spec_stop_trigger_header-IsCoded p.trigger c0).2),
          ))
          (required-cons rf_survey_spec_stop_trigger_coding p.trigger i0 k1)
          ((Gives-every rf_survey_spec_group1 custom_coding (λ o. record p { custom = o })
              (λ _. refl) p.custom [] _ _ i1 (Gives-nil rf_survey_spec_group1 p))
            _ (omega arith)),
    )

pub rf_survey_spec-IsRead : (x : RfSurveySpec) → IsRfSurveySpec x → IsRead rf_survey_spec_coding x
rf_survey_spec-IsRead x v =
    coding-IsRead param_rf_survey_spec rf_survey_spec_header unmarshal_rf_survey_spec x
      (rf_survey_spec_header-IsCoded x v)

abbrev pub IsRoSpec : RoSpec → Type 0
IsRoSpec p =
    IsU32 p.ro_spec_id
    × IsU8 p.priority
    × IsU8 p.ro_spec_current_state
    × IsRoBoundarySpec p.ro_boundary_spec
    × All IsAiSpec p.ai_specs
    × All IsRfSurveySpec p.rf_survey_specs
    × All IsCustom p.custom
    × IfSome IsU32 p.loop_spec
    × IfSome IsRoReportSpec p.ro_report_spec
    × Fits (ro_spec_header p)

abbrev pub ro_spec_coding : Coding RoSpec
ro_spec_coding = coding param_ro_spec ro_spec_header unmarshal_ro_spec

ro_spec_read :
    (p : RoSpec) (rest rest2 rest3 : List ℕ)
    → IsU32 p.ro_spec_id
    → IsU8 p.priority
    → IsU8 p.ro_spec_current_state
    → 15 ≤ length ((be32 p.ro_spec_id ++ (p.priority ∷ u8 p.ro_spec_current_state ∷ [])) ++ rest)
    → required (ro_boundary_spec_coding.of_type) (ro_boundary_spec_coding.read) rest
      ≡ ok (p.ro_boundary_spec, rest2)
    → group
        (suc (length rest2))
        ro_spec_group1
        (record p {
          ai_specs = [];
          rf_survey_specs = [];
          custom = [];
          loop_spec = none;
          ro_report_spec = none;
        })
        rest2
      ≡ ok (record p { loop_spec = none; ro_report_spec = none }, rest3)
    → group
        (suc (length rest3))
        ro_spec_group2
        (record p { loop_spec = none; ro_report_spec = none })
        rest3
      ≡ ok (p, [])
    → unmarshal_ro_spec
        ((be32 p.ro_spec_id ++ (p.priority ∷ u8 p.ro_spec_current_state ∷ [])) ++ rest)
      ≡ ok p
unfolding unmarshal_ro_spec has_enough_bytes
ro_spec_read p rest rest2 rest3 b0 b1 b2 h1 h2 h3 h4 = ground (
  arith,
  group-empty ro_spec_group1 rest2 rest3
      (record p {
        ai_specs = [];
        rf_survey_specs = [];
        custom = [];
        loop_spec = none;
        ro_report_spec = none;
      })
      (record p { loop_spec = none; ro_report_spec = none }) h3,
  group-empty ro_spec_group2 rest3 [] (record p { loop_spec = none; ro_report_spec = none }) (p) h4,
)

pub ro_spec_header-IsCoded :
    (p : RoSpec) → IsRoSpec p → IsCoded param_ro_spec ro_spec_header unmarshal_ro_spec p
unfolding ro_spec_header is_tv ro_spec_group1 ro_spec_group2
ro_spec_header-IsCoded p (b0, b1, b2, c0, c1, c2, c3, c4, c5, fits) =
    let i0 = ro_boundary_spec-IsRead p.ro_boundary_spec c0 in
    let i1 : All (IsRead ai_spec_coding) p.ai_specs = All-map ai_spec-IsRead p.ai_specs c1 in
    let i2 : All (IsRead rf_survey_spec_coding) p.rf_survey_specs =
      All-map rf_survey_spec-IsRead p.rf_survey_specs c2 in
    let i3 : All (IsRead custom_coding) p.custom = All-map custom-IsRead p.custom c3 in
    let i4 : IfSome (IsRead loop_spec_coding) p.loop_spec =
      IfSome-map loop_spec-IsRead p.loop_spec c4 in
    let i5 : IfSome (IsRead ro_report_spec_coding) p.ro_report_spec =
      IfSome-map ro_report_spec-IsRead p.ro_report_spec c5 in
    let k5 : ParamHeaders = maybe ro_report_spec_header p.ro_report_spec +++ nil in
    let k4 : ParamHeaders = maybe loop_spec_header p.loop_spec +++ k5 in
    let k3 : ParamHeaders = every custom_header p.custom +++ k4 in
    let k2 : ParamHeaders = every rf_survey_spec_header p.rf_survey_specs +++ k3 in
    let k1 : ParamHeaders = every ai_spec_header p.ai_specs +++ k2 in
    let k0 : ParamHeaders = one (ro_boundary_spec_header p.ro_boundary_spec) +++ k1 in
    (
      IsWritten-subs param_ro_spec 10
          (be32 p.ro_spec_id ++ (p.priority ∷ u8 p.ro_spec_current_state ∷ [])) _ refl (omega arith)
          refl
          (
            i0.0.0,
            (AllSized-every ai_spec_coding p.ai_specs _ i1 (
                AllSized-every rf_survey_spec_coding p.rf_survey_specs _ i2 (
                  AllSized-every custom_coding p.custom _ i3 (
                    AllSized-maybe loop_spec_coding p.loop_spec _ i4
                      (AllSized-maybe ro_report_spec_coding p.ro_report_spec _ i5 tt))))),
          )
          fits,
      refl,
      ro_spec_read p (encode_params k0) (encode_params k1) (encode_params k4) b0 b1 b2
          (omega (
            arith,
            length-encode_params-cons (ro_boundary_spec_header p.ro_boundary_spec) k1 (i0.0),
            ro_boundary_spec_enough (body (ro_boundary_spec_header p.ro_boundary_spec))
                p.ro_boundary_spec ((ro_boundary_spec_header-IsCoded p.ro_boundary_spec c0).2),
          ))
          (required-cons ro_boundary_spec_coding p.ro_boundary_spec i0 k1)
          ((Gives-every ro_spec_group1 ai_spec_coding
              (λ o. record p {
                ai_specs = o;
                rf_survey_specs = [];
                custom = [];
                loop_spec = none;
                ro_report_spec = none;
              })
              (λ _. refl) p.ai_specs [] _ _ i1
              (Gives-every ro_spec_group1 rf_survey_spec_coding
                (λ o. record p {
                  rf_survey_specs = o;
                  custom = [];
                  loop_spec = none;
                  ro_report_spec = none;
                })
                (λ _. refl) p.rf_survey_specs [] _ _ i2
                (Gives-every ro_spec_group1 custom_coding
                  (λ o. record p { custom = o; loop_spec = none; ro_report_spec = none })
                  (λ _. refl) p.custom [] _ _ i3
                  (Gives-foreign ro_spec_group1
                    (record p { loop_spec = none; ro_report_spec = none }) _
                    (maybe-IsForeign ro_spec_group1
                      (record p { loop_spec = none; ro_report_spec = none }) loop_spec_coding
                      p.loop_spec _ i4 refl
                      (maybe-IsForeign ro_spec_group1
                        (record p { loop_spec = none; ro_report_spec = none }) ro_report_spec_coding
                        p.ro_report_spec _ i5 refl tt))))))
            _ (omega arith))
          ((Gives-maybe ro_spec_group2 loop_spec_coding
              (λ o. record p { loop_spec = o; ro_report_spec = none }) p.loop_spec _ _ refl i4
              (Gives-maybe ro_spec_group2 ro_report_spec_coding
                (λ o. record p { ro_report_spec = o }) p.ro_report_spec _ _ refl i5
                (Gives-nil ro_spec_group2 p)))
            _ (omega arith)),
    )

pub ro_spec_enough :
    (bytes : List ℕ) (p : RoSpec) → unmarshal_ro_spec bytes ≡ ok p → 15 ≤ length bytes
unfolding unmarshal_ro_spec
ro_spec_enough bytes p e = enough-of-ok param_ro_spec 15 (length bytes) false _ p e

pub ro_spec-IsRead : (x : RoSpec) → IsRoSpec x → IsRead ro_spec_coding x
ro_spec-IsRead x v =
    coding-IsRead param_ro_spec ro_spec_header unmarshal_ro_spec x (ro_spec_header-IsCoded x v)
