-- ===== src/Llrp/Codec/Sightings.antt =====
-- The TV parameters of a `TagReportData`: written in any order and number, they are read into their fields.
use device_rfid_llrp_go.Prelude.{
  ℕ, zero, suc, ◌<◌, ◌≡◌, refl, ◌∙◌, none, some, List, [], ◌∷◌, ◌++◌, arith, length, length-append,
  ok, All, IsU8, IsU16, IsU32, IsU64,
}
use device_rfid_llrp_go.Llrp.Params.{
  ParamHeader, nil, is_tv, head_bytes, encode_param, encode_params,
}
use device_rfid_llrp_go.Llrp.Fields.{mixed_type, mixed_group, every, ◌+++◌}
use device_rfid_llrp_go.Llrp.Codec.TvScalars.{
  ro_spec_id_header, spec_index_header, inventory_parameter_spec_id_header, antenna_id_header,
  peak_rssi_header, channel_index_header, first_seen_utc_header, first_seen_uptime_header,
  last_seen_utc_header, last_seen_uptime_header, tag_seen_count_header, c1g2_xpcw1_header,
  c1g2_xpcw2_header, c1g2_crc_header, access_spec_id_header, client_request_op_spec_result_header,
}
use device_rfid_llrp_go.Llrp.Codec.Identities.{zero_epc96, zero_epc_data}
use device_rfid_llrp_go.Llrp.Codec.TagReports.{TagReportData, tag_report_data_group2}

-- A report that says nothing of its tag yet.
abbrev pub zero_tag_report_data : TagReportData
zero_tag_report_data = record {
  epc_data = zero_epc_data;
  epc96 = zero_epc96;
  ro_spec_id = none;
  spec_index = none;
  inventory_parameter_spec_id = none;
  antenna_id = none;
  peak_rssi = none;
  channel_index = none;
  first_seen_utc = none;
  first_seen_uptime = none;
  last_seen_utc = none;
  last_seen_uptime = none;
  tag_seen_count = none;
  c1g2_pc = none;
  c1g2_xpcw1 = none;
  c1g2_xpcw2 = none;
  c1g2_crc = none;
  access_spec_id = none;
  c1g2_read_op_spec_result = none;
  c1g2_write_op_spec_result = none;
  c1g2_kill_op_spec_result = none;
  c1g2_lock_op_spec_result = none;
  c1g2_block_erase_op_spec_result = none;
  c1g2_block_write_op_spec_result = none;
  c1g2_recommission_op_spec_result = none;
  c1g2_block_permalock_op_spec_result = none;
  c1g2_get_block_permalock_status_op_spec_result = none;
  client_request_op_spec_result = none;
  custom = [];
}

-- What a report says of a tag.
pub data Said : Type 0 where
  said_ro_spec_id : ℕ → Said
  said_spec_index : ℕ → Said
  said_inventory_parameter_spec_id : ℕ → Said
  said_antenna_id : ℕ → Said
  said_peak_rssi : ℕ → Said
  said_channel_index : ℕ → Said
  said_first_seen_utc : ℕ → Said
  said_first_seen_uptime : ℕ → Said
  said_last_seen_utc : ℕ → Said
  said_last_seen_uptime : ℕ → Said
  said_tag_seen_count : ℕ → Said
  said_c1g2_xpcw1 : ℕ → Said
  said_c1g2_xpcw2 : ℕ → Said
  said_c1g2_crc : ℕ → Said
  said_access_spec_id : ℕ → Said
  said_client_request_op_spec_result : ℕ → Said

-- How it is written, the values that its field holds, and what it sets.
abbrev pub written : Said → ParamHeader
written (said_ro_spec_id n) = ro_spec_id_header n
written (said_spec_index n) = spec_index_header n
written (said_inventory_parameter_spec_id n) = inventory_parameter_spec_id_header n
written (said_antenna_id n) = antenna_id_header n
written (said_peak_rssi n) = peak_rssi_header n
written (said_channel_index n) = channel_index_header n
written (said_first_seen_utc n) = first_seen_utc_header n
written (said_first_seen_uptime n) = first_seen_uptime_header n
written (said_last_seen_utc n) = last_seen_utc_header n
written (said_last_seen_uptime n) = last_seen_uptime_header n
written (said_tag_seen_count n) = tag_seen_count_header n
written (said_c1g2_xpcw1 n) = c1g2_xpcw1_header n
written (said_c1g2_xpcw2 n) = c1g2_xpcw2_header n
written (said_c1g2_crc n) = c1g2_crc_header n
written (said_access_spec_id n) = access_spec_id_header n
written (said_client_request_op_spec_result n) = client_request_op_spec_result_header n

abbrev pub IsSaid : Said → Type 0
IsSaid (said_ro_spec_id n) = IsU32 n
IsSaid (said_spec_index n) = IsU16 n
IsSaid (said_inventory_parameter_spec_id n) = IsU16 n
IsSaid (said_antenna_id n) = IsU16 n
IsSaid (said_peak_rssi n) = IsU8 n
IsSaid (said_channel_index n) = IsU16 n
IsSaid (said_first_seen_utc n) = IsU64 n
IsSaid (said_first_seen_uptime n) = IsU64 n
IsSaid (said_last_seen_utc n) = IsU64 n
IsSaid (said_last_seen_uptime n) = IsU64 n
IsSaid (said_tag_seen_count n) = IsU16 n
IsSaid (said_c1g2_xpcw1 n) = IsU16 n
IsSaid (said_c1g2_xpcw2 n) = IsU16 n
IsSaid (said_c1g2_crc n) = IsU16 n
IsSaid (said_access_spec_id n) = IsU32 n
IsSaid (said_client_request_op_spec_result n) = IsU16 n

abbrev pub told : Said → TagReportData → TagReportData
told (said_ro_spec_id n) p = record p { ro_spec_id = some n }
told (said_spec_index n) p = record p { spec_index = some n }
told (said_inventory_parameter_spec_id n) p = record p { inventory_parameter_spec_id = some n }
told (said_antenna_id n) p = record p { antenna_id = some n }
told (said_peak_rssi n) p = record p { peak_rssi = some n }
told (said_channel_index n) p = record p { channel_index = some n }
told (said_first_seen_utc n) p = record p { first_seen_utc = some n }
told (said_first_seen_uptime n) p = record p { first_seen_uptime = some n }
told (said_last_seen_utc n) p = record p { last_seen_utc = some n }
told (said_last_seen_uptime n) p = record p { last_seen_uptime = some n }
told (said_tag_seen_count n) p = record p { tag_seen_count = some n }
told (said_c1g2_xpcw1 n) p = record p { c1g2_xpcw1 = some n }
told (said_c1g2_xpcw2 n) p = record p { c1g2_xpcw2 = some n }
told (said_c1g2_crc n) p = record p { c1g2_crc = some n }
told (said_access_spec_id n) p = record p { access_spec_id = some n }
told (said_client_request_op_spec_result n) p = record p { client_request_op_spec_result = some n }

-- All of it in order, so that the last of several parameters of one type counts.
abbrev pub told_all : List Said → TagReportData → TagReportData
told_all [] p = p
told_all (s ∷ ss) p = told_all ss (told s p)

said_read :
    (s : Said) (fuel : ℕ) (p : TagReportData) (rest : List ℕ)
    → IsSaid s
    → mixed_group mixed_type (suc fuel) tag_report_data_group2 p (encode_param (written s) ++ rest)
      ≡ mixed_group mixed_type fuel tag_report_data_group2 (told s p) rest
unfolding mixed_group mixed_type tag_report_data_group2 encode_param encode_params head_bytes is_tv
    ro_spec_id_header spec_index_header inventory_parameter_spec_id_header antenna_id_header
    peak_rssi_header channel_index_header first_seen_utc_header first_seen_uptime_header
    last_seen_utc_header last_seen_uptime_header tag_seen_count_header c1g2_xpcw1_header
    c1g2_xpcw2_header c1g2_crc_header access_spec_id_header client_request_op_spec_result_header
said_read (said_ro_spec_id n) fuel p rest v = ground arith
said_read (said_spec_index n) fuel p rest v = ground arith
said_read (said_inventory_parameter_spec_id n) fuel p rest v = ground arith
said_read (said_antenna_id n) fuel p rest v = ground arith
said_read (said_peak_rssi n) fuel p rest v = ground arith
said_read (said_channel_index n) fuel p rest v = ground arith
said_read (said_first_seen_utc n) fuel p rest v = ground arith
said_read (said_first_seen_uptime n) fuel p rest v = ground arith
said_read (said_last_seen_utc n) fuel p rest v = ground arith
said_read (said_last_seen_uptime n) fuel p rest v = ground arith
said_read (said_tag_seen_count n) fuel p rest v = ground arith
said_read (said_c1g2_xpcw1 n) fuel p rest v = ground arith
said_read (said_c1g2_xpcw2 n) fuel p rest v = ground arith
said_read (said_c1g2_crc n) fuel p rest v = ground arith
said_read (said_access_spec_id n) fuel p rest v = ground arith
said_read (said_client_request_op_spec_result n) fuel p rest v = ground arith

said_length : (s : Said) → 0 < length (encode_param (written s))
unfolding encode_param encode_params head_bytes is_tv ro_spec_id_header spec_index_header
    inventory_parameter_spec_id_header antenna_id_header peak_rssi_header channel_index_header
    first_seen_utc_header first_seen_uptime_header last_seen_utc_header last_seen_uptime_header
    tag_seen_count_header c1g2_xpcw1_header c1g2_xpcw2_header c1g2_crc_header access_spec_id_header
    client_request_op_spec_result_header
said_length (said_ro_spec_id n) = omega arith
said_length (said_spec_index n) = omega arith
said_length (said_inventory_parameter_spec_id n) = omega arith
said_length (said_antenna_id n) = omega arith
said_length (said_peak_rssi n) = omega arith
said_length (said_channel_index n) = omega arith
said_length (said_first_seen_utc n) = omega arith
said_length (said_first_seen_uptime n) = omega arith
said_length (said_last_seen_utc n) = omega arith
said_length (said_last_seen_uptime n) = omega arith
said_length (said_tag_seen_count n) = omega arith
said_length (said_c1g2_xpcw1 n) = omega arith
said_length (said_c1g2_xpcw2 n) = omega arith
said_length (said_c1g2_crc n) = omega arith
said_length (said_access_spec_id n) = omega arith
said_length (said_client_request_op_spec_result n) = omega arith

-- With fuel that counts the bytes, the loop over the parameters of a tag report reads any sequence of TV
-- parameters with a number that fits, as they are written, into the fields of the report, and ends: the last
-- of each type counts, and the other fields keep what they hold.
pub tag_report_data_group2-written :
    (said : List Said) (fuel : ℕ) (p : TagReportData)
    → All IsSaid said
    → length (encode_params (every written said +++ nil)) < fuel
    → mixed_group mixed_type fuel tag_report_data_group2 p
        (encode_params (every written said +++ nil))
      ≡ ok (told_all said p, [])
unfolding mixed_group encode_params
tag_report_data_group2-written said zero p v l = absurd (omega arith)
tag_report_data_group2-written [] (suc fuel) p v l = refl
tag_report_data_group2-written (s ∷ said) (suc fuel) p (v, vs) l =
    said_read s fuel p (encode_params (every written said +++ nil)) v
    ∙ tag_report_data_group2-written said fuel (told s p) vs (
        omega (
          arith,
          length-append (encode_param (written s)) (encode_params (every written said +++ nil)),
          said_length s,
        ))
