-- ===== src/Llrp/Codec/RoundTrip/Contents.antt =====
-- What a report on a tag holds.
use device_rfid_llrp_go.Prelude.{
  ℕ, suc, ◌+◌, ◌≤◌, ◌≡◌, refl, ap, ◌∙◌, false, none, List, [], ◌∷◌, ◌++◌, arith, length, Outcome,
  ok, ◌>>=◌, All,
}
use device_rfid_llrp_go.Llrp.Params.{
  ParamHeaders, nil, CodecError, has_enough_bytes, encode_params, is_tv,
}
use device_rfid_llrp_go.Llrp.ParamTypes.{
  param_c1g2_epc_memory_selector, param_tag_report_content_selector,
}
use device_rfid_llrp_go.Llrp.Fields.{
  has_bit, top_bit, finished, unless_empty, optional, group, b2b, ◌+++◌, every, maybe,
}
use device_rfid_llrp_go.Llrp.Fields.Coded.{
  Fits, IfSome, IfSome-map, All-map, Coding, IsRead, coding, IsCoded, coding-IsRead, enough-of-ok,
  optional_then,
}
use device_rfid_llrp_go.Llrp.Fields.Groups.{Gives-nil, Gives-every, group_last, every-IsNotFirst}
use device_rfid_llrp_go.Llrp.Fields.Sized.{IsWritten-subs, AllSized-every, AllSized-maybe}
use device_rfid_llrp_go.Llrp.Fields.Arrays.{eight_flags}
use device_rfid_llrp_go.Llrp.Codec.Identities.{custom_header}
use device_rfid_llrp_go.Llrp.Codec.Contents.{
  C1g2EpcMemorySelector, c1g2_epc_memory_selector_header, unmarshal_c1g2_epc_memory_selector,
  TagReportContentSelector, tag_report_content_selector_header,
  unmarshal_tag_report_content_selector, tag_report_content_selector_group1,
}
use device_rfid_llrp_go.Llrp.Codec.RoundTrip.Identities.{IsCustom, custom_coding, custom-IsRead}

abbrev pub IsC1g2EpcMemorySelector : C1g2EpcMemorySelector → Type 0
IsC1g2EpcMemorySelector p = Unit

abbrev pub c1g2_epc_memory_selector_coding : Coding C1g2EpcMemorySelector
c1g2_epc_memory_selector_coding =
    coding param_c1g2_epc_memory_selector c1g2_epc_memory_selector_header
      unmarshal_c1g2_epc_memory_selector

pub c1g2_epc_memory_selector_header-IsCoded :
    (p : C1g2EpcMemorySelector)
    → IsC1g2EpcMemorySelector p
    → IsCoded param_c1g2_epc_memory_selector c1g2_epc_memory_selector_header
        unmarshal_c1g2_epc_memory_selector p
unfolding unmarshal_c1g2_epc_memory_selector c1g2_epc_memory_selector_header has_enough_bytes
    encode_params is_tv
c1g2_epc_memory_selector_header-IsCoded p v = ground arith

pub c1g2_epc_memory_selector-IsRead :
    (x : C1g2EpcMemorySelector)
    → IsC1g2EpcMemorySelector x
    → IsRead c1g2_epc_memory_selector_coding x
c1g2_epc_memory_selector-IsRead x v =
    coding-IsRead param_c1g2_epc_memory_selector c1g2_epc_memory_selector_header
      unmarshal_c1g2_epc_memory_selector x (c1g2_epc_memory_selector_header-IsCoded x v)

abbrev pub IsTagReportContentSelector : TagReportContentSelector → Type 0
IsTagReportContentSelector p =
    IfSome IsC1g2EpcMemorySelector p.c1g2_epc_memory_selector
    × All IsCustom p.custom
    × Fits (tag_report_content_selector_header p)

abbrev pub tag_report_content_selector_coding : Coding TagReportContentSelector
tag_report_content_selector_coding =
    coding param_tag_report_content_selector tag_report_content_selector_header
      unmarshal_tag_report_content_selector

selector_tail : TagReportContentSelector → List ℕ → Outcome CodecError TagReportContentSelector
selector_tail p rest = unless_empty rest p (
    optional (c1g2_epc_memory_selector_coding.of_type) (c1g2_epc_memory_selector_coding.read) rest
    >>= λ (x, behind).
        unless_empty behind (record p { c1g2_epc_memory_selector = x })
          (group (suc (length behind)) tag_report_content_selector_group1
              (record p { c1g2_epc_memory_selector = x }) behind
            >>= λ (q, out). finished out q))

-- The reader in its two flag bytes.
abbrev flagged : ℕ → ℕ → TagReportContentSelector
flagged n m = record {
  enable_ro_spec_id = top_bit n;
  enable_spec_index = has_bit 6 n;
  enable_inventory_param_spec_id = has_bit 5 n;
  enable_antenna_id = has_bit 4 n;
  enable_channel_index = has_bit 3 n;
  enable_peak_rssi = has_bit 2 n;
  enable_first_seen_timestamp = has_bit 1 n;
  enable_last_seen_timestamp = has_bit 0 n;
  enable_tag_seen_count = top_bit m;
  enable_access_spec_id = has_bit 6 m;
  c1g2_epc_memory_selector = none;
  custom = [];
}

selector_front :
    (n m : ℕ) (rest : List ℕ)
    → unmarshal_tag_report_content_selector (n ∷ m ∷ rest) ≡ selector_tail (flagged n m) rest
unfolding unmarshal_tag_report_content_selector selector_tail has_enough_bytes
selector_front n m rest = ground arith

flagged_same :
    (n m : ℕ) (p : TagReportContentSelector)
    → n
      ≡ b2b p.enable_ro_spec_id 7
        + b2b p.enable_spec_index 6
        + b2b p.enable_inventory_param_spec_id 5
        + b2b p.enable_antenna_id 4
        + b2b p.enable_channel_index 3
        + b2b p.enable_peak_rssi 2
        + b2b p.enable_first_seen_timestamp 1
        + b2b p.enable_last_seen_timestamp 0
    → m ≡ b2b p.enable_tag_seen_count 7 + b2b p.enable_access_spec_id 6
    → flagged n m ≡ record p { c1g2_epc_memory_selector = none; custom = [] }
flagged_same n m p d e =
    let (a7, a6, a5, a4, a3, a2, a1, a0) =
      eight_flags p.enable_ro_spec_id p.enable_spec_index p.enable_inventory_param_spec_id
        p.enable_antenna_id p.enable_channel_index p.enable_peak_rssi p.enable_first_seen_timestamp
        p.enable_last_seen_timestamp n d in
    let (b7, b6, _, _, _, _, _, _) =
      eight_flags p.enable_tag_seen_count p.enable_access_spec_id false false false false false
        false m (omega (arith, e)) in
    λ i. record p {
      enable_ro_spec_id = a7 i;
      enable_spec_index = a6 i;
      enable_inventory_param_spec_id = a5 i;
      enable_antenna_id = a4 i;
      enable_channel_index = a3 i;
      enable_peak_rssi = a2 i;
      enable_first_seen_timestamp = a1 i;
      enable_last_seen_timestamp = a0 i;
      enable_tag_seen_count = b7 i;
      enable_access_spec_id = b6 i;
      c1g2_epc_memory_selector = none;
      custom = [];
    }

tag_report_content_selector_read :
    (p : TagReportContentSelector) (rest : List ℕ)
    → 2
      ≤ length (
          (((b2b p.enable_ro_spec_id 7
              + b2b p.enable_spec_index 6
              + b2b p.enable_inventory_param_spec_id 5
              + b2b p.enable_antenna_id 4
              + b2b p.enable_channel_index 3
              + b2b p.enable_peak_rssi 2
              + b2b p.enable_first_seen_timestamp 1
              + b2b p.enable_last_seen_timestamp 0)
            ∷ (b2b p.enable_tag_seen_count 7 + b2b p.enable_access_spec_id 6)
            ∷ []))
          ++ rest)
    → unless_empty rest
        (record p { c1g2_epc_memory_selector = none; custom = [] })
        (optional
            (c1g2_epc_memory_selector_coding.of_type)
            (c1g2_epc_memory_selector_coding.read)
            rest
          >>= λ (x, behind).
              unless_empty behind
                (record p { c1g2_epc_memory_selector = x; custom = [] })
                (group
                    (suc (length behind))
                    tag_report_content_selector_group1
                    (record p { c1g2_epc_memory_selector = x; custom = [] })
                    behind
                  >>= λ (q, out). finished out q))
      ≡ ok p
    → unmarshal_tag_report_content_selector (
        (((b2b p.enable_ro_spec_id 7
            + b2b p.enable_spec_index 6
            + b2b p.enable_inventory_param_spec_id 5
            + b2b p.enable_antenna_id 4
            + b2b p.enable_channel_index 3
            + b2b p.enable_peak_rssi 2
            + b2b p.enable_first_seen_timestamp 1
            + b2b p.enable_last_seen_timestamp 0)
          ∷ (b2b p.enable_tag_seen_count 7 + b2b p.enable_access_spec_id 6)
          ∷ []))
        ++ rest)
      ≡ ok p
unfolding selector_tail
tag_report_content_selector_read p rest h1 h2 =
    selector_front
      (b2b p.enable_ro_spec_id 7
        + b2b p.enable_spec_index 6
        + b2b p.enable_inventory_param_spec_id 5
        + b2b p.enable_antenna_id 4
        + b2b p.enable_channel_index 3
        + b2b p.enable_peak_rssi 2
        + b2b p.enable_first_seen_timestamp 1
        + b2b p.enable_last_seen_timestamp 0)
      (b2b p.enable_tag_seen_count 7 + b2b p.enable_access_spec_id 6) rest
    ∙ ap (λ q. selector_tail q rest) (flagged_same _ _ p refl refl)
    ∙ h2

pub tag_report_content_selector_header-IsCoded :
    (p : TagReportContentSelector)
    → IsTagReportContentSelector p
    → IsCoded param_tag_report_content_selector tag_report_content_selector_header
        unmarshal_tag_report_content_selector p
unfolding tag_report_content_selector_header is_tv tag_report_content_selector_group1
tag_report_content_selector_header-IsCoded p (c0, c1, fits) =
    let i0 : IfSome (IsRead c1g2_epc_memory_selector_coding) p.c1g2_epc_memory_selector =
      IfSome-map c1g2_epc_memory_selector-IsRead p.c1g2_epc_memory_selector c0 in
    let i1 : All (IsRead custom_coding) p.custom = All-map custom-IsRead p.custom c1 in
    let k1 : ParamHeaders = every custom_header p.custom +++ nil in
    let k0 : ParamHeaders =
      maybe c1g2_epc_memory_selector_header p.c1g2_epc_memory_selector +++ k1 in
    (
      IsWritten-subs param_tag_report_content_selector 6
          (((b2b p.enable_ro_spec_id 7
              + b2b p.enable_spec_index 6
              + b2b p.enable_inventory_param_spec_id 5
              + b2b p.enable_antenna_id 4
              + b2b p.enable_channel_index 3
              + b2b p.enable_peak_rssi 2
              + b2b p.enable_first_seen_timestamp 1
              + b2b p.enable_last_seen_timestamp 0)
            ∷ (b2b p.enable_tag_seen_count 7 + b2b p.enable_access_spec_id 6)
            ∷ []))
          _ refl (omega arith) refl
          (AllSized-maybe c1g2_epc_memory_selector_coding p.c1g2_epc_memory_selector _ i0
            (AllSized-every custom_coding p.custom _ i1 tt))
          fits,
      refl,
      tag_report_content_selector_read p (encode_params k0) (omega (arith)) (
          optional_then c1g2_epc_memory_selector_coding
            (λ o. record p { c1g2_epc_memory_selector = o; custom = [] }) p.c1g2_epc_memory_selector
            k1
            (λ q bytes. unless_empty bytes q (
              group (suc (length bytes)) tag_report_content_selector_group1 q bytes >>= λ (r, out).
              finished out r))
            p i0
            (every-IsNotFirst tag_report_content_selector_group1 custom_coding _ p.custom nil i1
              (λ e. omega (arith, e)) tt)
            refl
            (group_last tag_report_content_selector_group1 _
              (record p { c1g2_epc_memory_selector = p.c1g2_epc_memory_selector; custom = [] }) p
              (Gives-every tag_report_content_selector_group1 custom_coding
                (λ o. record p { custom = o }) (λ _. refl) p.custom [] _ _ i1
                (Gives-nil tag_report_content_selector_group1 p)))),
    )

pub tag_report_content_selector_enough :
    (bytes : List ℕ) (p : TagReportContentSelector)
    → unmarshal_tag_report_content_selector bytes ≡ ok p
    → 2 ≤ length bytes
unfolding unmarshal_tag_report_content_selector
tag_report_content_selector_enough bytes p e =
    enough-of-ok param_tag_report_content_selector 2 (length bytes) false _ p e

pub tag_report_content_selector-IsRead :
    (x : TagReportContentSelector)
    → IsTagReportContentSelector x
    → IsRead tag_report_content_selector_coding x
tag_report_content_selector-IsRead x v =
    coding-IsRead param_tag_report_content_selector tag_report_content_selector_header
      unmarshal_tag_report_content_selector x (tag_report_content_selector_header-IsCoded x v)
