-- ===== src/Llrp/Codec/Regulatory.antt =====
-- `RegulatoryCapabilities`, its band and modes: generated code of pkg/llrp.
use device_rfid_llrp_go.Prelude.{
  ℕ, suc, ◌+◌, ◌*◌, ◌/◌, ◌^◌, Bool, true, false, Option, none, List, [], ◌∷◌, ◌++◌, ◌==◌,
  if◌then◌else◌, length, Outcome, ok, ◌>>=◌, ◌>>◌,
}
use device_rfid_llrp_go.Llrp.Bytes.{be16, be32, slice_from}
use device_rfid_llrp_go.Llrp.Params.{
  ParamHeader, ParamHeaders, header, nil, CodecError, has_enough_bytes,
}
use device_rfid_llrp_go.Llrp.Fields.{
  byte_at, uint16_at, uint32_at, has_bit, finished, unless_empty, within, required, optional, Cases,
  into, group, u8, b2b, ◌+++◌, one, every, maybe, add_sizes,
}
use device_rfid_llrp_go.Llrp.ParamTypes.{
  param_custom, param_frequency_information, param_regulatory_capabilities,
  param_rf_survey_frequency_capabilities, param_transmit_power_level_table_entry,
  param_uhf_band_capabilities, param_uhf_c1g2_rf_mode_table, param_uhf_c1g2_rf_mode_table_entry,
}
use device_rfid_llrp_go.Llrp.Codec.Identities.{Custom, custom_header, unmarshal_custom}
use device_rfid_llrp_go.Llrp.Codec.Frequencies.{
  TransmitPowerLevelTableEntry, transmit_power_level_table_entry_header,
  unmarshal_transmit_power_level_table_entry, FrequencyInformation, zero_frequency_information,
  frequency_information_header, unmarshal_frequency_information, RfSurveyFrequencyCapabilities,
  rf_survey_frequency_capabilities_header, unmarshal_rf_survey_frequency_capabilities,
}

pub record UhfC1g2RfModeTableEntry : Type 0 where
  pub mode_id : ℕ
  pub divide_ratio : ℕ
  pub is_epc_hag_conformant : Bool
  pub modulation : ℕ
  pub forward_link_modulation : ℕ
  pub spectral_mask : ℕ
  pub backscatter_data_rate : ℕ
  pub pie_ratio : ℕ
  pub min_tari_time : ℕ
  pub max_tari_time : ℕ
  pub step_tari_time : ℕ

-- `UHFC1G2RFModeTableEntry.getHeader` and `EncodeFields`
unfoldable pub uhf_c1g2_rf_mode_table_entry_header : UhfC1g2RfModeTableEntry → ParamHeader
uhf_c1g2_rf_mode_table_entry_header p =
    header param_uhf_c1g2_rf_mode_table_entry 32
      (be32 p.mode_id
        ++ ((u8 (p.divide_ratio * 2 ^ 7) + b2b p.is_epc_hag_conformant 6)
            ∷ u8 p.modulation
            ∷ u8 p.forward_link_modulation
            ∷ u8 p.spectral_mask
            ∷ [])
        ++ be32 p.backscatter_data_rate
        ++ be32 p.pie_ratio
        ++ be32 p.min_tari_time
        ++ be32 p.max_tari_time
        ++ be32 p.step_tari_time)
      nil

-- `UHFC1G2RFModeTableEntry.UnmarshalBinary`
unfoldable pub unmarshal_uhf_c1g2_rf_mode_table_entry :
    List ℕ → Outcome CodecError UhfC1g2RfModeTableEntry
unmarshal_uhf_c1g2_rf_mode_table_entry bytes = do
  has_enough_bytes param_uhf_c1g2_rf_mode_table_entry 28 (length bytes) true
  mode_id ← uint32_at 0 bytes
  b4 ← byte_at 4 bytes
  modulation ← byte_at 5 bytes
  forward_link_modulation ← byte_at 6 bytes
  spectral_mask ← byte_at 7 bytes
  backscatter_data_rate ← uint32_at 8 bytes
  pie_ratio ← uint32_at 12 bytes
  min_tari_time ← uint32_at 16 bytes
  max_tari_time ← uint32_at 20 bytes
  step_tari_time ← uint32_at 24 bytes
  ok (record {
    mode_id = mode_id;
    divide_ratio = b4 / 2 ^ 7;
    is_epc_hag_conformant = has_bit 6 b4;
    modulation = modulation;
    forward_link_modulation = forward_link_modulation;
    spectral_mask = spectral_mask;
    backscatter_data_rate = backscatter_data_rate;
    pie_ratio = pie_ratio;
    min_tari_time = min_tari_time;
    max_tari_time = max_tari_time;
    step_tari_time = step_tari_time;
  })

pub record UhfC1g2RfModeTable : Type 0 where
  pub uhf_c1g2_rf_mode_table_entries : List UhfC1g2RfModeTableEntry

abbrev pub zero_uhf_c1g2_rf_mode_table : UhfC1g2RfModeTable
zero_uhf_c1g2_rf_mode_table = record { uhf_c1g2_rf_mode_table_entries = [] }

-- `UHFC1G2RFModeTable.getHeader` and `EncodeFields`
unfoldable pub uhf_c1g2_rf_mode_table_header : UhfC1g2RfModeTable → ParamHeader
uhf_c1g2_rf_mode_table_header p =
    let subs : ParamHeaders =
      every uhf_c1g2_rf_mode_table_entry_header p.uhf_c1g2_rf_mode_table_entries +++ nil in
    header param_uhf_c1g2_rf_mode_table (add_sizes 4 subs) ([]) subs

unfoldable pub uhf_c1g2_rf_mode_table_group1 : Cases UhfC1g2RfModeTable
uhf_c1g2_rf_mode_table_group1 pt p =
    if pt == param_uhf_c1g2_rf_mode_table_entry
    then into (within unmarshal_uhf_c1g2_rf_mode_table_entry) (λ x. record p {
      uhf_c1g2_rf_mode_table_entries = p.uhf_c1g2_rf_mode_table_entries ++ (x ∷ []);
    })
    else none

-- `UHFC1G2RFModeTable.UnmarshalBinary`
unfoldable pub unmarshal_uhf_c1g2_rf_mode_table : List ℕ → Outcome CodecError UhfC1g2RfModeTable
unmarshal_uhf_c1g2_rf_mode_table bytes = do
  has_enough_bytes param_uhf_c1g2_rf_mode_table 32 (length bytes) false
  let p : UhfC1g2RfModeTable = record { uhf_c1g2_rf_mode_table_entries = [] }
  (p1, rest) ← group (suc (length bytes)) uhf_c1g2_rf_mode_table_group1 p bytes
  finished rest p1

pub record UhfBandCapabilities : Type 0 where
  pub transmit_power_levels : List TransmitPowerLevelTableEntry
  pub frequency_information : FrequencyInformation
  pub c1g2_rf_modes : UhfC1g2RfModeTable
  pub rf_survey_frequency_capabilities : Option RfSurveyFrequencyCapabilities

-- `UHFBandCapabilities.getHeader` and `EncodeFields`
unfoldable pub uhf_band_capabilities_header : UhfBandCapabilities → ParamHeader
uhf_band_capabilities_header p =
    let subs : ParamHeaders =
      every transmit_power_level_table_entry_header p.transmit_power_levels
      +++ one (frequency_information_header p.frequency_information)
      +++ one (uhf_c1g2_rf_mode_table_header p.c1g2_rf_modes)
      +++ maybe rf_survey_frequency_capabilities_header p.rf_survey_frequency_capabilities
      +++ nil in
    header param_uhf_band_capabilities (add_sizes 4 subs) ([]) subs

unfoldable pub uhf_band_capabilities_group1 : Cases UhfBandCapabilities
uhf_band_capabilities_group1 pt p =
    if pt == param_transmit_power_level_table_entry
    then into (within unmarshal_transmit_power_level_table_entry)
        (λ x. record p { transmit_power_levels = p.transmit_power_levels ++ (x ∷ []) })
    else none

-- `UHFBandCapabilities.UnmarshalBinary`
unfoldable pub unmarshal_uhf_band_capabilities : List ℕ → Outcome CodecError UhfBandCapabilities
unmarshal_uhf_band_capabilities bytes = do
  has_enough_bytes param_uhf_band_capabilities 5 (length bytes) false
  let p : UhfBandCapabilities = record {
    transmit_power_levels = [];
    frequency_information = zero_frequency_information;
    c1g2_rf_modes = zero_uhf_c1g2_rf_mode_table;
    rf_survey_frequency_capabilities = none;
  }
  (p1, rest) ← group (suc (length bytes)) uhf_band_capabilities_group1 p bytes
  has_enough_bytes param_frequency_information 4 (length rest) false
  (frequency_information, rest2) ←
      required param_frequency_information (within unmarshal_frequency_information) rest
  let p_frequency_information : UhfBandCapabilities = record p1 {
    frequency_information = frequency_information;
  }
  has_enough_bytes param_uhf_c1g2_rf_mode_table 4 (length rest2) false
  (c1g2_rf_modes, rest3) ←
      required param_uhf_c1g2_rf_mode_table (within unmarshal_uhf_c1g2_rf_mode_table) rest2
  let p_c1g2_rf_modes : UhfBandCapabilities = record p_frequency_information {
    c1g2_rf_modes = c1g2_rf_modes;
  }
  unless_empty rest3 p_c1g2_rf_modes (do
    (rf_survey_frequency_capabilities, rest4) ←
        optional param_rf_survey_frequency_capabilities
          (within unmarshal_rf_survey_frequency_capabilities) rest3
    let p_rf_survey_frequency_capabilities : UhfBandCapabilities = record p_c1g2_rf_modes {
      rf_survey_frequency_capabilities = rf_survey_frequency_capabilities;
    }
    finished rest4 p_rf_survey_frequency_capabilities)

pub record RegulatoryCapabilities : Type 0 where
  pub country_code : ℕ
  pub communications_standard : ℕ
  pub uhf_band_capabilities : Option UhfBandCapabilities
  pub custom : List Custom

-- `RegulatoryCapabilities.getHeader` and `EncodeFields`
unfoldable pub regulatory_capabilities_header : RegulatoryCapabilities → ParamHeader
regulatory_capabilities_header p =
    let subs : ParamHeaders =
      maybe uhf_band_capabilities_header p.uhf_band_capabilities
      +++ every custom_header p.custom
      +++ nil in
    header param_regulatory_capabilities (add_sizes 8 subs)
      (be16 p.country_code ++ be16 p.communications_standard) subs

unfoldable pub regulatory_capabilities_group1 : Cases RegulatoryCapabilities
regulatory_capabilities_group1 pt p =
    if pt == param_custom
    then into (within unmarshal_custom) (λ x. record p { custom = p.custom ++ (x ∷ []) })
    else none

-- `RegulatoryCapabilities.UnmarshalBinary`
unfoldable pub unmarshal_regulatory_capabilities :
    List ℕ → Outcome CodecError RegulatoryCapabilities
unmarshal_regulatory_capabilities bytes = do
  has_enough_bytes param_regulatory_capabilities 4 (length bytes) false
  country_code ← uint16_at 0 bytes
  communications_standard ← uint16_at 2 bytes
  rest ← slice_from 4 bytes
  let p : RegulatoryCapabilities = record {
    country_code = country_code;
    communications_standard = communications_standard;
    uhf_band_capabilities = none;
    custom = [];
  }
  unless_empty rest p (do
    (uhf_band_capabilities, rest2) ←
        optional param_uhf_band_capabilities (within unmarshal_uhf_band_capabilities) rest
    let p_uhf_band_capabilities : RegulatoryCapabilities = record p {
      uhf_band_capabilities = uhf_band_capabilities;
    }
    unless_empty rest2 p_uhf_band_capabilities (do
      (p3, rest3) ←
          group (suc (length rest2)) regulatory_capabilities_group1 p_uhf_band_capabilities rest2
      finished rest3 p3))
