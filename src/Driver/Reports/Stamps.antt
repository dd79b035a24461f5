-- ===== src/Driver/Reports/Stamps.antt =====
-- What `processReport` makes of the times in a report.
use device_rfid_llrp_go.Prelude.{
  ℕ, ◌+◌, ◌*◌, ◌/◌, ◌^◌, ◌<◌, ◌≡◌, refl, ap, ap₂, map, Bool, true, false, ◌||◌, Option, none, some,
  List, [], ◌∷◌, if◌then◌else◌, arith, Bool-cases, inl, inr, ok, panic,
}
use device_rfid_llrp_go.Llrp.Codec.TagReports.{TagReportData}
use device_rfid_llrp_go.Llrp.Codec.Reports.{
  FrequencyRssiLevelEntry, RfSurveyReportData, RoAccessReport,
}
use device_rfid_llrp_go.Driver.Reports.{
  uptime_to_utc, process_entries, process_surveys, fill_utc, process_tag, process_tags,
  process_report,
}

-- An uptime without a time in UTC beside it,
abbrev pub is_alone : Option ℕ → Option ℕ → Bool
is_alone (some uptime) none = true
is_alone (some uptime) (some utc) = false
is_alone none utc = false

abbrev pub lacks_utc : List TagReportData → Bool
lacks_utc [] = false
lacks_utc (d ∷ ds) =
    (is_alone d.first_seen_uptime d.first_seen_utc || is_alone d.last_seen_uptime d.last_seen_utc)
    || lacks_utc ds

-- and the time that stands for an uptime.
abbrev pub in_utc : ℕ → Option ℕ → Option ℕ → Option ℕ
in_utc start none utc = utc
in_utc start (some uptime) utc = some (uptime_to_utc start uptime)

abbrev pub stamped : ℕ → List TagReportData → List TagReportData
stamped start [] = []
stamped start (d ∷ ds) =
    record d {
      first_seen_utc = in_utc start d.first_seen_uptime d.first_seen_utc;
      last_seen_utc = in_utc start d.last_seen_uptime d.last_seen_utc;
    }
    ∷ stamped start ds

-- A survey whose entries have the times of their uptimes.
abbrev pub entry_in_utc : ℕ → FrequencyRssiLevelEntry → FrequencyRssiLevelEntry
entry_in_utc start e = record e { utc_timestamp = uptime_to_utc start e.uptime }

abbrev pub survey_in_utc : ℕ → RfSurveyReportData → RfSurveyReportData
survey_in_utc start s = record s {
  frequency_rssi_level_entries = map (entry_in_utc start) s.frequency_rssi_level_entries;
}

process_entries-eq-map :
    (start : ℕ) (es : List FrequencyRssiLevelEntry)
    → process_entries start es ≡ map (entry_in_utc start) es
process_entries-eq-map start [] = refl
process_entries-eq-map start (e ∷ es) =
    ap (λ (ds : List FrequencyRssiLevelEntry). entry_in_utc start e ∷ ds)
      (process_entries-eq-map start es)

process_surveys-eq-map :
    (start : ℕ) (ss : List RfSurveyReportData)
    → process_surveys start ss ≡ map (survey_in_utc start) ss
process_surveys-eq-map start [] = refl
process_surveys-eq-map start (s ∷ ss) =
    ap₂
      (λ (es : List FrequencyRssiLevelEntry) (rest : List RfSurveyReportData).
        record s { frequency_rssi_level_entries = es } ∷ rest)
      (process_entries-eq-map start s.frequency_rssi_level_entries)
      (process_surveys-eq-map start ss)

fill_utc_either :
    (start : ℕ) (uptime utc : Option ℕ)
    → fill_utc start uptime utc
      ≡ (if is_alone uptime utc then panic else ok (in_utc start uptime utc))
fill_utc_either start none utc = refl
fill_utc_either start (some u) none = refl
fill_utc_either start (some u) (some v) = refl

process_tags_either :
    (start : ℕ) (ds : List TagReportData)
    → process_tags start ds ≡ (if lacks_utc ds then panic else ok (stamped start ds))
unfolding process_tags process_tag
process_tags_either start [] = refl
process_tags_either start (d ∷ ds) =
    rw
      (
        fill_utc_either start d.first_seen_uptime d.first_seen_utc,
        fill_utc_either start d.last_seen_uptime d.last_seen_utc,
        process_tags_either start ds,
      )
      (elim (Bool-cases (is_alone d.first_seen_uptime d.first_seen_utc)) [
        | inl a ↦ rw a refl
        | inr a ↦ elim (Bool-cases (is_alone d.last_seen_uptime d.last_seen_utc)) [
          | inl b ↦ rw (a, b) refl
          | inr b ↦
              rw (a, b) (elim (Bool-cases (lacks_utc ds)) [ inl c ↦ rw c refl | inr c ↦ rw c refl ])
        ]
      ])

-- With a start of the reader, `processReport` panics exactly where a tag of the report has a first or last
-- uptime without a time in UTC beside it. Otherwise each such time in UTC becomes that of its uptime, as do
-- those of the survey, and nothing else in the report changes.
pub process_report_either :
    (start : ℕ) (report : RoAccessReport)
    → process_report (some start) report ≡ (
        if lacks_utc report.tag_report_data
        then panic
        else ok (record report {
          tag_report_data = stamped start report.tag_report_data;
          rf_survey_report_data = map (survey_in_utc start) report.rf_survey_report_data;
        }))
unfolding process_report
process_report_either start report =
    rw
      (
        process_tags_either start report.tag_report_data,
        process_surveys-eq-map start report.rf_survey_report_data,
      )
      (elim (Bool-cases (lacks_utc report.tag_report_data)) [
        | inl c ↦ rw c refl
        | inr c ↦ rw c refl
      ])

-- Where the start of the reader and an uptime add up within an int64 of nanoseconds, the time in UTC is the
-- start in microseconds and the uptime.
pub uptime_to_utc_lem :
    (reader_start uptime : ℕ)
    → reader_start + 1000 * uptime < 2 ^ 63
    → uptime_to_utc reader_start uptime ≡ reader_start / 1000 + uptime
unfolding uptime_to_utc
uptime_to_utc_lem start u l = ground arith
