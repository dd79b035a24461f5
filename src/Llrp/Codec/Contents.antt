-- ===== src/Llrp/Codec/Contents.antt =====
-- What a report on a tag holds: generated code of pkg/llrp.
use device_rfid_llrp_go.Prelude.{
  ℕ, suc, ◌+◌, ◌/◌, ◌^◌, Bool, true, false, not, Option, none, List, [], ◌∷◌, ◌++◌, ◌==◌,
  if◌then◌else◌, length, Outcome, ok, ◌>>=◌, ◌>>◌,
}
use device_rfid_llrp_go.Llrp.Bytes.{slice_from}
use device_rfid_llrp_go.Llrp.Params.{
  ParamHeader, ParamHeaders, header, nil, CodecError, has_enough_bytes,
}
use device_rfid_llrp_go.Llrp.Fields.{
  byte_at, has_bit, finished, unless_empty, within, optional, Cases, into, group, b2b, ◌+++◌, every,
  maybe, add_sizes,
}
use device_rfid_llrp_go.Llrp.ParamTypes.{
  param_c1g2_epc_memory_selector, param_custom, param_tag_report_content_selector,
}
use device_rfid_llrp_go.Llrp.Codec.Identities.{Custom, custom_header, unmarshal_custom}

pub record C1g2EpcMemorySelector : Type 0 where
  pub crc_enabled : Bool
  pub pc_bits_enabled : Bool
  pub xpc_bits_enabled : Bool

-- `C1G2EPCMemorySelector.getHeader` and `EncodeFields`
unfoldable pub c1g2_epc_memory_selector_header : C1g2EpcMemorySelector → ParamHeader
c1g2_epc_memory_selector_header p =
    header param_c1g2_epc_memory_selector 5
      (((b2b p.crc_enabled 7 + b2b p.pc_bits_enabled 6 + b2b p.xpc_bits_enabled 5) ∷ [])) nil

-- `C1G2EPCMemorySelector.UnmarshalBinary`
unfoldable pub unmarshal_c1g2_epc_memory_selector :
    List ℕ → Outcome CodecError C1g2EpcMemorySelector
unmarshal_c1g2_epc_memory_selector bytes = do
  has_enough_bytes param_c1g2_epc_memory_selector 1 (length bytes) true
  b0 ← byte_at 0 bytes
  ok (record {
    crc_enabled = not (b0 / 2 ^ 7 == 0);
    pc_bits_enabled = has_bit 6 b0;
    xpc_bits_enabled = has_bit 5 b0;
  })

pub record TagReportContentSelector : Type 0 where
  pub enable_ro_spec_id : Bool
  pub enable_spec_index : Bool
  pub enable_inventory_param_spec_id : Bool
  pub enable_antenna_id : Bool
  pub enable_channel_index : Bool
  pub enable_peak_rssi : Bool
  pub enable_first_seen_timestamp : Bool
  pub enable_last_seen_timestamp : Bool
  pub enable_tag_seen_count : Bool
  pub enable_access_spec_id : Bool
  pub c1g2_epc_memory_selector : Option C1g2EpcMemorySelector
  pub custom : List Custom

-- `TagReportContentSelector.getHeader` and `EncodeFields`
unfoldable pub tag_report_content_selector_header : TagReportContentSelector → ParamHeader
tag_report_content_selector_header p =
    let subs : ParamHeaders =
      maybe c1g2_epc_memory_selector_header p.c1g2_epc_memory_selector
      +++ every custom_header p.custom
      +++ nil in
    header param_tag_report_content_selector (add_sizes 6 subs)
      (((b2b p.enable_ro_spec_id 7
          + b2b p.enable_spec_index 6
          + b2b p.enable_inventory_param_spec_id 5
          + b2b p.enable_antenna_id 4
          + b2b p.enable_channel_index 3
          + b2b p.enable_peak_rssi 2
          + b2b p.enable_first_seen_timestamp 1
          + b2b p.enable_last_seen_timestamp 0)
        ∷ (b2b p.enable_tag_seen_count 7 + b2b p.enable_access_spec_id 6)
        ∷ []))
      subs

unfoldable pub tag_report_content_selector_group1 : Cases TagReportContentSelector
tag_report_content_selector_group1 pt p =
    if pt == param_custom
    then into (within unmarshal_custom) (λ x. record p { custom = p.custom ++ (x ∷ []) })
    else none

-- `TagReportContentSelector.UnmarshalBinary`
unfoldable pub unmarshal_tag_report_content_selector :
    List ℕ → Outcome CodecError TagReportContentSelector
unmarshal_tag_report_content_selector bytes = do
  has_enough_bytes param_tag_report_content_selector 2 (length bytes) false
  b0 ← byte_at 0 bytes
  b1 ← byte_at 1 bytes
  rest ← slice_from 2 bytes
  let p : TagReportContentSelector = record {
    enable_ro_spec_id = not (b0 / 2 ^ 7 == 0);
    enable_spec_index = has_bit 6 b0;
    enable_inventory_param_spec_id = has_bit 5 b0;
    enable_antenna_id = has_bit 4 b0;
    enable_channel_index = has_bit 3 b0;
    enable_peak_rssi = has_bit 2 b0;
    enable_first_seen_timestamp = has_bit 1 b0;
    enable_last_seen_timestamp = has_bit 0 b0;
    enable_tag_seen_count = not (b1 / 2 ^ 7 == 0);
    enable_access_spec_id = has_bit 6 b1;
    c1g2_epc_memory_selector = none;
    custom = [];
  }
  unless_empty rest p (do
    (c1g2_epc_memory_selector, rest2) ←
        optional param_c1g2_epc_memory_selector (within unmarshal_c1g2_epc_memory_selector) rest
    let p_c1g2_epc_memory_selector : TagReportContentSelector = record p {
      c1g2_epc_memory_selector = c1g2_epc_memory_selector;
    }
    unless_empty rest2 p_c1g2_epc_memory_selector (do
      (p3, rest3) ←
          group (suc (length rest2)) tag_report_content_selector_group1 p_c1g2_epc_memory_selector
            rest2
      finished rest3 p3))
