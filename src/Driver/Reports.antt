-- ===== src/Driver/Reports.antt =====
-- `uptimeToUTC`, `processReport` and the part of `newROHandler` that is not output, of internal/driver/device.go.
-- The start of a reader is what `UnixNano` gives for it, an int64 as its bit pattern, or none for the zero time.
pub mod Stamps
use device_rfid_llrp_go.Prelude.{
  ℕ, ◌+◌, ◌-◌, ◌*◌, ◌/◌, ◌%◌, ◌^◌, Option, none, some, List, [], ◌∷◌, if◌then◌else◌, ltb, Outcome,
  ok, panic, ◌>>=◌,
}
use device_rfid_llrp_go.Llrp.Params.{CodecError}
use device_rfid_llrp_go.Llrp.Codec.TagReports.{TagReportData}
use device_rfid_llrp_go.Llrp.Codec.Reports.{
  FrequencyRssiLevelEntry, RfSurveyReportData, RoAccessReport, unmarshal_ro_access_report,
}

-- `n / 1000` of an int64, which Go rounds towards zero.
abbrev pub i64_thousandth : ℕ → ℕ
i64_thousandth n = if ltb n (2 ^ 63) then n / 1000 else (2 ^ 64 - (2 ^ 64 - n) / 1000) % 2 ^ 64

unfoldable pub uptime_to_utc : ℕ → ℕ → ℕ
uptime_to_utc reader_start uptime =
    i64_thousandth ((reader_start + 1000 * uptime % 2 ^ 64) % 2 ^ 64)

abbrev pub process_entry : ℕ → FrequencyRssiLevelEntry → FrequencyRssiLevelEntry
process_entry start e = record e { utc_timestamp = uptime_to_utc start e.uptime }

abbrev pub process_entries : ℕ → List FrequencyRssiLevelEntry → List FrequencyRssiLevelEntry
process_entries start [] = []
process_entries start (e ∷ es) = process_entry start e ∷ process_entries start es

abbrev pub process_surveys : ℕ → List RfSurveyReportData → List RfSurveyReportData
process_surveys start [] = []
process_surveys start (s ∷ ss) =
    record s { frequency_rssi_level_entries = process_entries start s.frequency_rssi_level_entries }
    ∷ process_surveys start ss

-- `*utc = uptimeToUTC(..)` where there is an uptime. The pointer may be nil.
abbrev pub fill_utc : ℕ → Option ℕ → Option ℕ → Outcome CodecError (Option ℕ)
fill_utc start none utc = ok utc
fill_utc start (some uptime) none = panic
fill_utc start (some uptime) (some utc) = ok (some (uptime_to_utc start uptime))

unfoldable pub process_tag : ℕ → TagReportData → Outcome CodecError TagReportData
process_tag start d = do
  first ← fill_utc start d.first_seen_uptime d.first_seen_utc
  last ← fill_utc start d.last_seen_uptime d.last_seen_utc
  ok (record d { first_seen_utc = first; last_seen_utc = last })

unfoldable pub process_tags : ℕ → List TagReportData → Outcome CodecError (List TagReportData)
process_tags start [] = ok []
process_tags start (d ∷ ds) = do e ← process_tag start d; es ← process_tags start ds; ok (e ∷ es)

unfoldable pub process_report : Option ℕ → RoAccessReport → Outcome CodecError RoAccessReport
process_report none report = ok report
process_report (some start) report = do
  tags ← process_tags start report.tag_report_data
  ok (record report {
    tag_report_data = tags;
    rf_survey_report_data = process_surveys start report.rf_survey_report_data;
  })

-- What `newROHandler` sends on for a message of these bytes.
unfoldable pub handle_report : Option ℕ → List ℕ → Outcome CodecError RoAccessReport
handle_report reader_start bytes = unmarshal_ro_access_report bytes >>= process_report reader_start
