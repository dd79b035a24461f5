-- ===== src/Llrp/Codec/RoundTrip/ReportSpecs.antt =====
-- `ROReportSpec`, and the choice of notifications.
use device_rfid_llrp_go.Prelude.{
  ℕ, suc, ◌≤◌, ◌≡◌, refl, List, [], ◌∷◌, ◌++◌, arith, length, ok, IsU8, IsU16, All,
}
use device_rfid_llrp_go.Llrp.Bytes.{be16}
use device_rfid_llrp_go.Llrp.Params.{ParamHeaders, nil, has_enough_bytes, encode_params, is_tv}
use device_rfid_llrp_go.Llrp.ParamTypes.{param_ro_report_spec}
use device_rfid_llrp_go.Llrp.Fields.{required, group, u8, ◌+++◌, one, every}
use device_rfid_llrp_go.Llrp.Fields.Coded.{
  body, Fits, All-map, Coding, IsRead, coding, IsCoded, coding-IsRead, length-encode_params-cons,
  required-cons,
}
use device_rfid_llrp_go.Llrp.Fields.Groups.{Gives-nil, Gives-every, group-empty}
use device_rfid_llrp_go.Llrp.Fields.Sized.{IsWritten-subs, AllSized-every}
use device_rfid_llrp_go.Llrp.Codec.Identities.{custom_header}
use device_rfid_llrp_go.Llrp.Codec.Contents.{tag_report_content_selector_header}
use device_rfid_llrp_go.Llrp.Codec.ReportSpecs.{
  RoReportSpec, ro_report_spec_header, unmarshal_ro_report_spec, ro_report_spec_group1,
}
use device_rfid_llrp_go.Llrp.Codec.RoundTrip.Identities.{IsCustom, custom_coding, custom-IsRead}
use device_rfid_llrp_go.Llrp.Codec.RoundTrip.Contents.{
  IsTagReportContentSelector, tag_report_content_selector_coding,
  tag_report_content_selector_header-IsCoded, tag_report_content_selector_enough,
  tag_report_content_selector-IsRead,
}

abbrev pub IsRoReportSpec : RoReportSpec → Type 0
IsRoReportSpec p =
    IsU8 p.trigger
    × IsU16 p.n
    × IsTagReportContentSelector p.tag_report_content_selector
    × All IsCustom p.custom
    × Fits (ro_report_spec_header p)

abbrev pub ro_report_spec_coding : Coding RoReportSpec
ro_report_spec_coding = coding param_ro_report_spec ro_report_spec_header unmarshal_ro_report_spec

ro_report_spec_read :
    (p : RoReportSpec) (rest rest2 : List ℕ)
    → IsU8 p.trigger
    → IsU16 p.n
    → 9 ≤ length (((u8 p.trigger ∷ []) ++ be16 p.n) ++ rest)
    → required
        (tag_report_content_selector_coding.of_type)
        (tag_report_content_selector_coding.read)
        rest
      ≡ ok (p.tag_report_content_selector, rest2)
    → group (suc (length rest2)) ro_report_spec_group1 (record p { custom = [] }) rest2 ≡ ok (p, [])
    → unmarshal_ro_report_spec (((u8 p.trigger ∷ []) ++ be16 p.n) ++ rest) ≡ ok p
unfolding unmarshal_ro_report_spec has_enough_bytes
ro_report_spec_read p rest rest2 b0 b1 h1 h2 h3 =
    ground (arith, group-empty ro_report_spec_group1 rest2 [] (record p { custom = [] }) (p) h3)

pub ro_report_spec_header-IsCoded :
    (p : RoReportSpec)
    → IsRoReportSpec p
    → IsCoded param_ro_report_spec ro_report_spec_header unmarshal_ro_report_spec p
unfolding ro_report_spec_header is_tv ro_report_spec_group1
ro_report_spec_header-IsCoded p (b0, b1, c0, c1, fits) =
    let i0 = tag_report_content_selector-IsRead p.tag_report_content_selector c0 in
    let i1 : All (IsRead custom_coding) p.custom = All-map custom-IsRead p.custom c1 in
    let k1 : ParamHeaders = every custom_header p.custom +++ nil in
    let k0 : ParamHeaders =
      one (tag_report_content_selector_header p.tag_report_content_selector) +++ k1 in
    (
      IsWritten-subs param_ro_report_spec 7 ((u8 p.trigger ∷ []) ++ be16 p.n) _ refl (omega arith)
          refl (i0.0.0, (AllSized-every custom_coding p.custom _ i1 tt)) fits,
      refl,
      ro_report_spec_read p (encode_params k0) (encode_params k1) b0 b1
          (omega (
            arith,
            length-encode_params-cons
                (tag_report_content_selector_header p.tag_report_content_selector) k1 (i0.0),
            tag_report_content_selector_enough
                (body (tag_report_content_selector_header p.tag_report_content_selector))
                p.tag_report_content_selector
                ((tag_report_content_selector_header-IsCoded p.tag_report_content_selector c0).2),
          ))
          (required-cons tag_report_content_selector_coding p.tag_report_content_selector i0 k1)
          ((Gives-every ro_report_spec_group1 custom_coding (λ o. record p { custom = o })
              (λ _. refl) p.custom [] _ _ i1 (Gives-nil ro_report_spec_group1 p))
            _ (omega arith)),
    )

pub ro_report_spec-IsRead : (x : RoReportSpec) → IsRoReportSpec x → IsRead ro_report_spec_coding x
ro_report_spec-IsRead x v =
    coding-IsRead param_ro_report_spec ro_report_spec_header unmarshal_ro_report_spec x
      (ro_report_spec_header-IsCoded x v)
