-- ===== src/Driver/Examples.antt =====
-- The theorems on discovery at a network of two hosts, and at a reader that took the address of another.
use device_rfid_llrp_go.Prelude.{map, ok, ◌+◌, ◌≡◌, refl, false, none, some, List, [], ◌∷◌, arith}
use device_rfid_llrp_go.Llrp.Codec.Sightings.{zero_tag_report_data}
use device_rfid_llrp_go.Llrp.Codec.Reports.{RoAccessReport}
use device_rfid_llrp_go.Driver.Reports.{process_report, uptime_to_utc}
use device_rfid_llrp_go.Driver.Reports.Stamps.{
  stamped, survey_in_utc, process_report_either, uptime_to_utc_lem,
}
use device_rfid_llrp_go.Driver.Networks.{compute_net_sz, net_id, ip_generator}
use device_rfid_llrp_go.Driver.Networks.Hosts.{count_up, ip_generator-compute_net_sz}
use device_rfid_llrp_go.Driver.Discover.{
  Address, OperatingState, Device, DiscoveryInfo, update_existing_device, same, same_address,
  device_at, disable_previous, process_result,
}
use device_rfid_llrp_go.Driver.Discover.Listed.{
  device_by_name, update_device, listed, listed-IsRegistry,
}
use device_rfid_llrp_go.Driver.Discover.Rounds.{process_result_known, process_result_previous}

ip_generator-compute_net_sz_example :
    ip_generator 30 0xc0a80006 ≡ count_up (net_id 30 0xc0a80006 + 1) (compute_net_sz 30)
ip_generator-compute_net_sz_example =
    ip_generator-compute_net_sz 30 0xc0a80006 (omega arith) (omega arith)

abbrev here : Address
here = record { host = 49 ∷ []; port = 53 ∷ [] }

abbrev elsewhere : Address
elsewhere = record { host = 50 ∷ []; port = 53 ∷ [] }

-- Device "a" stands at the address where "b" is found now; "b" was somewhere else.
abbrev device_a : Device
device_a = record { name = 97 ∷ []; tcp = some here; operating_state = OperatingState.state_up }

abbrev device_b : Device
device_b = record {
  name = 98 ∷ [];
  tcp = some elsewhere;
  operating_state = OperatingState.state_down;
}

abbrev found_b : DiscoveryInfo
found_b = record { device_name = 98 ∷ []; address = here }

abbrev registered : List Device
registered = device_a ∷ device_b ∷ []

abbrev by_address : List (Address × Device)
by_address = (here, device_a) ∷ (elsewhere, device_b) ∷ []

process_result_known_example :
    let r = process_result listed by_address found_b registered [] in
    (device_by_name (98 ∷ []) r.0
      ≡ some
          (record { name = 98 ∷ []; tcp = some here; operating_state = OperatingState.state_up }))
    × (r.1 ≡ [])
unfolding same_address same
process_result_known_example =
    process_result_known listed listed-IsRegistry by_address found_b registered device_b []
      (unfold disable_previous device_at same_address same update_device device_by_name in refl)

-- A device of an unknown state that is found where it stands keeps that state.
abbrev device_c : Device
device_c = record {
  name = 99 ∷ [];
  tcp = some here;
  operating_state = OperatingState.state_other [];
}

update_existing_device_unknown :
    update_existing_device (record { device_name = 99 ∷ []; address = here }) device_c
    ≡ (device_c, false)
unfolding update_existing_device same_address same
update_existing_device_unknown = refl

process_result_previous_example :
    device_by_name (97 ∷ []) (process_result listed by_address found_b registered []).0
    ≡ some (record { name = 97 ∷ []; tcp = none; operating_state = OperatingState.state_down })
process_result_previous_example =
    process_result_previous listed listed-IsRegistry by_address found_b registered device_a device_a
      [] (unfold device_at same_address same in refl) (unfold same in refl)
      (unfold device_by_name same in refl)

-- A reader that started at 5 seconds, and a tag and a frequency that it saw 2 seconds later.
abbrev a_sighting : RoAccessReport
a_sighting = record {
  tag_report_data =
      record zero_tag_report_data { first_seen_uptime = some 2000000; first_seen_utc = some 0 }
      ∷ [];
  rf_survey_report_data =
      record {
        ro_spec_id = none;
        spec_index = none;
        frequency_rssi_level_entries =
            record {
              frequency = 915000;
              bandwidth = 500;
              average_rssi = 10;
              peak_rssi = 20;
              utc_timestamp = 0;
              uptime = 2000000;
            }
            ∷ [];
        custom = [];
      }
      ∷ [];
  custom = [];
}

process_report_either_example :
    process_report (some 5000000000) a_sighting
    ≡ ok (record a_sighting {
      tag_report_data = stamped 5000000000 a_sighting.tag_report_data;
      rf_survey_report_data = map (survey_in_utc 5000000000) a_sighting.rf_survey_report_data;
    })
process_report_either_example = process_report_either 5000000000 a_sighting

uptime_to_utc_lem_example : uptime_to_utc 5000000999 2000000 ≡ 7000000
uptime_to_utc_lem_example = uptime_to_utc_lem 5000000999 2000000 (omega arith)
