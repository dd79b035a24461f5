-- ===== src/Llrp/Codec/Reports.antt =====
-- `ROAccessReport`, `ClientRequestOp`, `RFSurveyReportData`. The writers
-- of the messages that hold a `TagReportData` are not modelled: generated code of pkg/llrp.
use device_rfid_llrp_go.Prelude.{
  ℕ, suc, false, not, Option, none, some, List, [], ◌∷◌, ◌++◌, leb, ◌==◌, if◌then◌else◌, length,
  Outcome, ◌>>=◌, ◌>>◌, guard,
}
use device_rfid_llrp_go.Llrp.Bytes.{be32, uint16, uint32, uint64, slice_from}
use device_rfid_llrp_go.Llrp.Params.{
  ParamHeader, ParamHeaders, header, nil, CodecError, has_enough_bytes,
}
use device_rfid_llrp_go.Llrp.Fields.{
  byte_at, uint32_at, finished, unless_empty, within, beyond, required, Cases, into, one_of, group,
  tv_type, MixedCases, into_rest, tv, mixed_group, u8, ◌+++◌, one, every, maybe, add_sizes,
}
use device_rfid_llrp_go.Llrp.ParamTypes.{
  param_custom, param_frequency_rssi_level_entry, param_rf_survey_report_data, param_ro_spec_id,
  param_spec_index, param_tag_report_data, param_uptime, param_utc_timestamp,
}
use device_rfid_llrp_go.Llrp.MessageTypes as MessageTypes
use device_rfid_llrp_go.Llrp.Codec.TvScalars.{ro_spec_id_header, spec_index_header}
use device_rfid_llrp_go.Llrp.Codec.Scalars.{utc_timestamp_header, uptime_header}
use device_rfid_llrp_go.Llrp.Codec.Identities.{Custom, custom_header, unmarshal_custom}
use device_rfid_llrp_go.Llrp.Codec.TagReports.{TagReportData, unmarshal_tag_report_data}

pub record FrequencyRssiLevelEntry : Type 0 where
  pub frequency : ℕ
  pub bandwidth : ℕ
  pub average_rssi : ℕ
  pub peak_rssi : ℕ
  pub utc_timestamp : ℕ
  pub uptime : ℕ

-- `FrequencyRSSILevelEntry.getHeader` and `EncodeFields`
unfoldable pub frequency_rssi_level_entry_header : FrequencyRssiLevelEntry → ParamHeader
frequency_rssi_level_entry_header p =
    let subs : ParamHeaders =
      (if not (p.utc_timestamp == 0)
        then one (utc_timestamp_header p.utc_timestamp)
        else if not (p.uptime == 0)
        then one (uptime_header p.uptime)
        else nil)
      +++ nil in
    header param_frequency_rssi_level_entry (add_sizes 14 subs)
      (be32 p.frequency ++ be32 p.bandwidth ++ (u8 p.average_rssi ∷ u8 p.peak_rssi ∷ [])) subs

unfoldable pub frequency_rssi_level_entry_one_of : Cases FrequencyRssiLevelEntry
frequency_rssi_level_entry_one_of pt p =
    if pt == param_utc_timestamp
    then into (beyond uint64) (λ x. record p { utc_timestamp = x })
    else if pt == param_uptime
    then into (beyond uint64) (λ x. record p { uptime = x })
    else none

-- `FrequencyRSSILevelEntry.UnmarshalBinary`
unfoldable pub unmarshal_frequency_rssi_level_entry :
    List ℕ → Outcome CodecError FrequencyRssiLevelEntry
unmarshal_frequency_rssi_level_entry bytes = do
  has_enough_bytes param_frequency_rssi_level_entry 22 (length bytes) false
  frequency ← uint32_at 0 bytes
  bandwidth ← uint32_at 4 bytes
  average_rssi ← byte_at 8 bytes
  peak_rssi ← byte_at 9 bytes
  rest ← slice_from 10 bytes
  let p : FrequencyRssiLevelEntry = record {
    frequency = frequency;
    bandwidth = bandwidth;
    average_rssi = average_rssi;
    peak_rssi = peak_rssi;
    utc_timestamp = 0;
    uptime = 0;
  }
  (p2, rest2) ← one_of frequency_rssi_level_entry_one_of p rest
  finished rest2 p2

pub record RfSurveyReportData : Type 0 where
  pub ro_spec_id : Option ℕ
  pub spec_index : Option ℕ
  pub frequency_rssi_level_entries : List FrequencyRssiLevelEntry
  pub custom : List Custom

-- `RFSurveyReportData.getHeader` and `EncodeFields`
unfoldable pub rf_survey_report_data_header : RfSurveyReportData → ParamHeader
rf_survey_report_data_header p =
    let subs : ParamHeaders =
      maybe ro_spec_id_header p.ro_spec_id
      +++ maybe spec_index_header p.spec_index
      +++ every frequency_rssi_level_entry_header p.frequency_rssi_level_entries
      +++ every custom_header p.custom
      +++ nil in
    header param_rf_survey_report_data (add_sizes 4 subs) ([]) subs

unfoldable pub rf_survey_report_data_group1 : MixedCases RfSurveyReportData
rf_survey_report_data_group1 pt p =
    if pt == param_ro_spec_id
    then into_rest (tv 5 uint32) (λ x. record p { ro_spec_id = some x })
    else if pt == param_spec_index
    then into_rest (tv 3 uint16) (λ x. record p { spec_index = some x })
    else none

unfoldable pub rf_survey_report_data_group2 : Cases RfSurveyReportData
rf_survey_report_data_group2 pt p =
    if pt == param_frequency_rssi_level_entry
    then into (within unmarshal_frequency_rssi_level_entry) (λ x. record p {
      frequency_rssi_level_entries = p.frequency_rssi_level_entries ++ (x ∷ []);
    })
    else none

unfoldable pub rf_survey_report_data_group3 : Cases RfSurveyReportData
rf_survey_report_data_group3 pt p =
    if pt == param_custom
    then into (within unmarshal_custom) (λ x. record p { custom = p.custom ++ (x ∷ []) })
    else none

-- `RFSurveyReportData.UnmarshalBinary`
unfoldable pub unmarshal_rf_survey_report_data : List ℕ → Outcome CodecError RfSurveyReportData
unmarshal_rf_survey_report_data bytes = do
  has_enough_bytes param_rf_survey_report_data 26 (length bytes) false
  let p : RfSurveyReportData = record {
    ro_spec_id = none;
    spec_index = none;
    frequency_rssi_level_entries = [];
    custom = [];
  }
  (p1, rest) ← mixed_group tv_type (suc (length bytes)) rf_survey_report_data_group1 p bytes
  (p2, rest2) ← group (suc (length rest)) rf_survey_report_data_group2 p1 rest
  unless_empty rest2 p2 (do
    (p3, rest3) ← group (suc (length rest2)) rf_survey_report_data_group3 p2 rest2
    finished rest3 p3)

pub record ClientRequestOp : Type 0 where
  pub tag_report_data : TagReportData

-- `ClientRequestOp.UnmarshalBinary`
unfoldable pub unmarshal_client_request_op : List ℕ → Outcome CodecError ClientRequestOp
unmarshal_client_request_op bytes = do
  guard (leb 10 (length bytes))
      (CodecError.wrong_length MessageTypes.client_request_op (length bytes))
  (tag_report_data, rest) ← required param_tag_report_data (within unmarshal_tag_report_data) bytes
  finished rest (record { tag_report_data = tag_report_data })

pub record RoAccessReport : Type 0 where
  pub tag_report_data : List TagReportData
  pub rf_survey_report_data : List RfSurveyReportData
  pub custom : List Custom

unfoldable pub ro_access_report_group1 : Cases RoAccessReport
ro_access_report_group1 pt p =
    if pt == param_tag_report_data
    then into (within unmarshal_tag_report_data)
        (λ x. record p { tag_report_data = p.tag_report_data ++ (x ∷ []) })
    else if pt == param_rf_survey_report_data
    then into (within unmarshal_rf_survey_report_data)
        (λ x. record p { rf_survey_report_data = p.rf_survey_report_data ++ (x ∷ []) })
    else if pt == param_custom
    then into (within unmarshal_custom) (λ x. record p { custom = p.custom ++ (x ∷ []) })
    else none

-- `ROAccessReport.UnmarshalBinary`
unfoldable pub unmarshal_ro_access_report : List ℕ → Outcome CodecError RoAccessReport
unmarshal_ro_access_report bytes = do
  let p : RoAccessReport = record { tag_report_data = []; rf_survey_report_data = []; custom = [] }
  unless_empty bytes p
      (do (p1, rest) ← group (suc (length bytes)) ro_access_report_group1 p bytes; finished rest p1)
