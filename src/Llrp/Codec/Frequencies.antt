-- ===== src/Llrp/Codec/Frequencies.antt =====
-- Frequencies and powers: generated code of pkg/llrp.
use device_rfid_llrp_go.Prelude.{
  ℕ, suc, ◌+◌, ◌*◌, ◌/◌, ◌^◌, Bool, true, false, not, Option, none, List, [], ◌∷◌, ◌++◌, ◌==◌,
  if◌then◌else◌, length, Outcome, ok, ◌>>=◌, ◌>>◌,
}
use device_rfid_llrp_go.Llrp.Bytes.{be16, be32, slice_from}
use device_rfid_llrp_go.Llrp.Params.{
  ParamHeader, ParamHeaders, header, nil, CodecError, has_enough_bytes,
}
use device_rfid_llrp_go.Llrp.Fields.{
  byte_at, uint16_at, uint32_at, uint32_array, finished, unless_empty, within, optional, Cases,
  into, group, u16, b2b, each_be32, ◌+++◌, every, maybe, add_sizes,
}
use device_rfid_llrp_go.Llrp.ParamTypes.{
  param_fixed_frequency_table, param_frequency_hop_table, param_frequency_information,
  param_rf_survey_frequency_capabilities, param_transmit_power_level_table_entry,
}

pub record TransmitPowerLevelTableEntry : Type 0 where
  pub index : ℕ
  pub transmit_power_value : ℕ

-- `TransmitPowerLevelTableEntry.getHeader` and `EncodeFields`
unfoldable pub transmit_power_level_table_entry_header : TransmitPowerLevelTableEntry → ParamHeader
transmit_power_level_table_entry_header p =
    header param_transmit_power_level_table_entry 8 (be16 p.index ++ be16 p.transmit_power_value)
      nil

-- `TransmitPowerLevelTableEntry.UnmarshalBinary`
unfoldable pub unmarshal_transmit_power_level_table_entry :
    List ℕ → Outcome CodecError TransmitPowerLevelTableEntry
unmarshal_transmit_power_level_table_entry bytes = do
  has_enough_bytes param_transmit_power_level_table_entry 4 (length bytes) true
  index ← uint16_at 0 bytes
  transmit_power_value ← uint16_at 2 bytes
  ok (record { index = index; transmit_power_value = transmit_power_value })

pub record FrequencyHopTable : Type 0 where
  pub hop_table_id : ℕ
  pub frequencies : List ℕ

-- `FrequencyHopTable.getHeader` and `EncodeFields`
unfoldable pub frequency_hop_table_header : FrequencyHopTable → ParamHeader
frequency_hop_table_header p =
    header param_frequency_hop_table (u16 (8 + length p.frequencies * 4))
      ((p.hop_table_id ∷ 0 ∷ []) ++ be16 (length p.frequencies) ++ each_be32 p.frequencies) nil

-- `FrequencyHopTable.UnmarshalBinary`
unfoldable pub unmarshal_frequency_hop_table : List ℕ → Outcome CodecError FrequencyHopTable
unmarshal_frequency_hop_table bytes = do
  has_enough_bytes param_frequency_hop_table 4 (length bytes) false
  hop_table_id ← byte_at 0 bytes
  (frequencies, rest) ← uint32_array 2 bytes
  finished rest (record { hop_table_id = hop_table_id; frequencies = frequencies })

pub record FixedFrequencyTable : Type 0 where
  pub frequencies : List ℕ

-- `FixedFrequencyTable.getHeader` and `EncodeFields`
unfoldable pub fixed_frequency_table_header : FixedFrequencyTable → ParamHeader
fixed_frequency_table_header p =
    header param_fixed_frequency_table (u16 (6 + length p.frequencies * 4))
      (be16 (length p.frequencies) ++ each_be32 p.frequencies) nil

-- `FixedFrequencyTable.UnmarshalBinary`
unfoldable pub unmarshal_fixed_frequency_table : List ℕ → Outcome CodecError FixedFrequencyTable
unmarshal_fixed_frequency_table bytes = do
  has_enough_bytes param_fixed_frequency_table 2 (length bytes) false
  (frequencies, rest) ← uint32_array 0 bytes
  finished rest (record { frequencies = frequencies })

pub record FrequencyInformation : Type 0 where
  pub hopping : Bool
  pub frequency_hop_tables : List FrequencyHopTable
  pub fixed_frequency_table : Option FixedFrequencyTable

abbrev pub zero_frequency_information : FrequencyInformation
zero_frequency_information = record {
  hopping = false;
  frequency_hop_tables = [];
  fixed_frequency_table = none;
}

-- `FrequencyInformation.getHeader` and `EncodeFields`
unfoldable pub frequency_information_header : FrequencyInformation → ParamHeader
frequency_information_header p =
    let subs : ParamHeaders =
      every frequency_hop_table_header p.frequency_hop_tables
      +++ maybe fixed_frequency_table_header p.fixed_frequency_table
      +++ nil in
    header param_frequency_information (add_sizes 5 subs) (b2b p.hopping 7 ∷ []) subs

unfoldable pub frequency_information_group1 : Cases FrequencyInformation
frequency_information_group1 pt p =
    if pt == param_frequency_hop_table
    then into (within unmarshal_frequency_hop_table)
        (λ x. record p { frequency_hop_tables = p.frequency_hop_tables ++ (x ∷ []) })
    else none

-- `FrequencyInformation.UnmarshalBinary`
unfoldable pub unmarshal_frequency_information : List ℕ → Outcome CodecError FrequencyInformation
unmarshal_frequency_information bytes = do
  has_enough_bytes param_frequency_information 1 (length bytes) false
  b0 ← byte_at 0 bytes
  rest ← slice_from 1 bytes
  let p : FrequencyInformation = record {
    hopping = not (b0 / 2 ^ 7 == 0);
    frequency_hop_tables = [];
    fixed_frequency_table = none;
  }
  unless_empty rest p (do
    (p2, rest2) ← group (suc (length rest)) frequency_information_group1 p rest
    unless_empty rest2 p2 (do
      (fixed_frequency_table, rest3) ←
          optional param_fixed_frequency_table (within unmarshal_fixed_frequency_table) rest2
      let p_fixed_frequency_table : FrequencyInformation = record p2 {
        fixed_frequency_table = fixed_frequency_table;
      }
      finished rest3 p_fixed_frequency_table))

pub record RfSurveyFrequencyCapabilities : Type 0 where
  pub min_frequency : ℕ
  pub max_frequency : ℕ

-- `RFSurveyFrequencyCapabilities.getHeader` and `EncodeFields`
unfoldable pub rf_survey_frequency_capabilities_header : RfSurveyFrequencyCapabilities → ParamHeader
rf_survey_frequency_capabilities_header p =
    header param_rf_survey_frequency_capabilities 12 (be32 p.min_frequency ++ be32 p.max_frequency)
      nil

-- `RFSurveyFrequencyCapabilities.UnmarshalBinary`
unfoldable pub unmarshal_rf_survey_frequency_capabilities :
    List ℕ → Outcome CodecError RfSurveyFrequencyCapabilities
unmarshal_rf_survey_frequency_capabilities bytes = do
  has_enough_bytes param_rf_survey_frequency_capabilities 8 (length bytes) true
  min_frequency ← uint32_at 0 bytes
  max_frequency ← uint32_at 4 bytes
  ok (record { min_frequency = min_frequency; max_frequency = max_frequency })
