-- ===== src/Llrp/Codec/TagReports.antt =====
-- `TagReportData`, whose writer is not modelled: generated code of pkg/llrp.
use device_rfid_llrp_go.Prelude.{
  ℕ, suc, false, Option, none, some, List, [], ◌∷◌, ◌++◌, ◌==◌, if◌then◌else◌, length, Outcome,
  ◌>>=◌, ◌>>◌,
}
use device_rfid_llrp_go.Llrp.Bytes.{uint8, uint16, uint32, uint64}
use device_rfid_llrp_go.Llrp.Params.{CodecError, has_enough_bytes}
use device_rfid_llrp_go.Llrp.Fields.{
  finished, unless_empty, within, sub_parameter, Cases, into, group, mixed_type, MixedCases,
  into_rest, tv, tv_within, mixed_one_of, mixed_group,
}
use device_rfid_llrp_go.Llrp.ParamTypes.{
  param_access_spec_id, param_antenna_id, param_c1g2_block_erase_op_spec_result,
  param_c1g2_block_permalock_op_spec_result, param_c1g2_block_write_op_spec_result, param_c1g2_crc,
  param_c1g2_get_block_permalock_status_op_spec_result, param_c1g2_kill_op_spec_result,
  param_c1g2_lock_op_spec_result, param_c1g2_pc, param_c1g2_read_op_spec_result,
  param_c1g2_recommission_op_spec_result, param_c1g2_write_op_spec_result, param_c1g2_xpcw1,
  param_c1g2_xpcw2, param_channel_index, param_client_request_op_spec_result, param_custom,
  param_epc96, param_epc_data, param_first_seen_uptime, param_first_seen_utc,
  param_inventory_parameter_spec_id, param_last_seen_uptime, param_last_seen_utc, param_peak_rssi,
  param_ro_spec_id, param_spec_index, param_tag_report_data, param_tag_seen_count,
}
use device_rfid_llrp_go.Llrp.Codec.Identities.{
  C1g2Pc, unmarshal_c1g2_pc, Epc96, zero_epc96, unmarshal_epc96, EpcData, zero_epc_data,
  unmarshal_epc_data, Custom, unmarshal_custom,
}
use device_rfid_llrp_go.Llrp.Codec.OpResults.{
  C1g2ReadOpSpecResult, unmarshal_c1g2_read_op_spec_result, C1g2WriteOpSpecResult,
  unmarshal_c1g2_write_op_spec_result, C1g2KillOpSpecResult, unmarshal_c1g2_kill_op_spec_result,
  C1g2LockOpSpecResult, unmarshal_c1g2_lock_op_spec_result, C1g2BlockEraseOpSpecResult,
  unmarshal_c1g2_block_erase_op_spec_result, C1g2BlockWriteOpSpecResult,
  unmarshal_c1g2_block_write_op_spec_result, C1g2RecommissionOpSpecResult,
  unmarshal_c1g2_recommission_op_spec_result, C1g2BlockPermalockOpSpecResult,
  unmarshal_c1g2_block_permalock_op_spec_result, C1g2GetBlockPermalockStatusOpSpecResult,
  unmarshal_c1g2_get_block_permalock_status_op_spec_result,
}

pub record TagReportData : Type 0 where
  pub epc_data : EpcData
  pub epc96 : Epc96
  pub ro_spec_id : Option ℕ
  pub spec_index : Option ℕ
  pub inventory_parameter_spec_id : Option ℕ
  pub antenna_id : Option ℕ
  pub peak_rssi : Option ℕ
  pub channel_index : Option ℕ
  pub first_seen_utc : Option ℕ
  pub first_seen_uptime : Option ℕ
  pub last_seen_utc : Option ℕ
  pub last_seen_uptime : Option ℕ
  pub tag_seen_count : Option ℕ
  pub c1g2_pc : Option C1g2Pc
  pub c1g2_xpcw1 : Option ℕ
  pub c1g2_xpcw2 : Option ℕ
  pub c1g2_crc : Option ℕ
  pub access_spec_id : Option ℕ
  pub c1g2_read_op_spec_result : Option C1g2ReadOpSpecResult
  pub c1g2_write_op_spec_result : Option C1g2WriteOpSpecResult
  pub c1g2_kill_op_spec_result : Option C1g2KillOpSpecResult
  pub c1g2_lock_op_spec_result : Option C1g2LockOpSpecResult
  pub c1g2_block_erase_op_spec_result : Option C1g2BlockEraseOpSpecResult
  pub c1g2_block_write_op_spec_result : Option C1g2BlockWriteOpSpecResult
  pub c1g2_recommission_op_spec_result : Option C1g2RecommissionOpSpecResult
  pub c1g2_block_permalock_op_spec_result : Option C1g2BlockPermalockOpSpecResult
  pub c1g2_get_block_permalock_status_op_spec_result :
      Option C1g2GetBlockPermalockStatusOpSpecResult
  pub client_request_op_spec_result : Option ℕ
  pub custom : List Custom

unfoldable pub tag_report_data_one_of : MixedCases TagReportData
tag_report_data_one_of pt p =
    if pt == param_epc_data
    then into_rest (sub_parameter (within unmarshal_epc_data)) (λ x. record p { epc_data = x })
    else if pt == param_epc96
    then into_rest (tv_within 13 unmarshal_epc96) (λ x. record p { epc96 = x })
    else none

unfoldable pub tag_report_data_group2 : MixedCases TagReportData
tag_report_data_group2 pt p =
    if pt == param_ro_spec_id
    then into_rest (tv 5 uint32) (λ x. record p { ro_spec_id = some x })
    else if pt == param_spec_index
    then into_rest (tv 3 uint16) (λ x. record p { spec_index = some x })
    else if pt == param_inventory_parameter_spec_id
    then into_rest (tv 3 uint16) (λ x. record p { inventory_parameter_spec_id = some x })
    else if pt == param_antenna_id
    then into_rest (tv 3 uint16) (λ x. record p { antenna_id = some x })
    else if pt == param_peak_rssi
    then into_rest (tv 2 uint8) (λ x. record p { peak_rssi = some x })
    else if pt == param_channel_index
    then into_rest (tv 3 uint16) (λ x. record p { channel_index = some x })
    else if pt == param_first_seen_utc
    then into_rest (tv 9 uint64) (λ x. record p { first_seen_utc = some x })
    else if pt == param_first_seen_uptime
    then into_rest (tv 9 uint64) (λ x. record p { first_seen_uptime = some x })
    else if pt == param_last_seen_utc
    then into_rest (tv 9 uint64) (λ x. record p { last_seen_utc = some x })
    else if pt == param_last_seen_uptime
    then into_rest (tv 9 uint64) (λ x. record p { last_seen_uptime = some x })
    else if pt == param_tag_seen_count
    then into_rest (tv 3 uint16) (λ x. record p { tag_seen_count = some x })
    else if pt == param_c1g2_pc
    then into_rest (tv_within 3 unmarshal_c1g2_pc) (λ x. record p { c1g2_pc = some x })
    else if pt == param_c1g2_xpcw1
    then into_rest (tv 3 uint16) (λ x. record p { c1g2_xpcw1 = some x })
    else if pt == param_c1g2_xpcw2
    then into_rest (tv 3 uint16) (λ x. record p { c1g2_xpcw2 = some x })
    else if pt == param_c1g2_crc
    then into_rest (tv 3 uint16) (λ x. record p { c1g2_crc = some x })
    else if pt == param_access_spec_id
    then into_rest (tv 5 uint32) (λ x. record p { access_spec_id = some x })
    else if pt == param_c1g2_read_op_spec_result
    then into_rest (sub_parameter (within unmarshal_c1g2_read_op_spec_result))
        (λ x. record p { c1g2_read_op_spec_result = some x })
    else if pt == param_c1g2_write_op_spec_result
    then into_rest (sub_parameter (within unmarshal_c1g2_write_op_spec_result))
        (λ x. record p { c1g2_write_op_spec_result = some x })
    else if pt == param_c1g2_kill_op_spec_result
    then into_rest (sub_parameter (within unmarshal_c1g2_kill_op_spec_result))
        (λ x. record p { c1g2_kill_op_spec_result = some x })
    else if pt == param_c1g2_lock_op_spec_result
    then into_rest (sub_parameter (within unmarshal_c1g2_lock_op_spec_result))
        (λ x. record p { c1g2_lock_op_spec_result = some x })
    else if pt == param_c1g2_block_erase_op_spec_result
    then into_rest (sub_parameter (within unmarshal_c1g2_block_erase_op_spec_result))
        (λ x. record p { c1g2_block_erase_op_spec_result = some x })
    else if pt == param_c1g2_block_write_op_spec_result
    then into_rest (sub_parameter (within unmarshal_c1g2_block_write_op_spec_result))
        (λ x. record p { c1g2_block_write_op_spec_result = some x })
    else if pt == param_c1g2_recommission_op_spec_result
    then into_rest (sub_parameter (within unmarshal_c1g2_recommission_op_spec_result))
        (λ x. record p { c1g2_recommission_op_spec_result = some x })
    else if pt == param_c1g2_block_permalock_op_spec_result
    then into_rest (sub_parameter (within unmarshal_c1g2_block_permalock_op_spec_result))
        (λ x. record p { c1g2_block_permalock_op_spec_result = some x })
    else if pt == param_c1g2_get_block_permalock_status_op_spec_result
    then into_rest (sub_parameter (within unmarshal_c1g2_get_block_permalock_status_op_spec_result))
        (λ x. record p { c1g2_get_block_permalock_status_op_spec_result = some x })
    else if pt == param_client_request_op_spec_result
    then into_rest (tv 3 uint16) (λ x. record p { client_request_op_spec_result = some x })
    else none

unfoldable pub tag_report_data_group3 : Cases TagReportData
tag_report_data_group3 pt p =
    if pt == param_custom
    then into (within unmarshal_custom) (λ x. record p { custom = p.custom ++ (x ∷ []) })
    else none

-- `TagReportData.UnmarshalBinary`
unfoldable pub unmarshal_tag_report_data : List ℕ → Outcome CodecError TagReportData
unmarshal_tag_report_data bytes = do
  has_enough_bytes param_tag_report_data 6 (length bytes) false
  let p : TagReportData = record {
    epc_data = zero_epc_data;
    epc96 = zero_epc96;
    ro_spec_id = none;
    spec_index = none;
    inventory_parameter_spec_id = none;
    antenna_id = none;
    peak_rssi = none;
    channel_index = none;
    first_seen_utc = none;
    first_seen_uptime = none;
    last_seen_utc = none;
    last_seen_uptime = none;
    tag_seen_count = none;
    c1g2_pc = none;
    c1g2_xpcw1 = none;
    c1g2_xpcw2 = none;
    c1g2_crc = none;
    access_spec_id = none;
    c1g2_read_op_spec_result = none;
    c1g2_write_op_spec_result = none;
    c1g2_kill_op_spec_result = none;
    c1g2_lock_op_spec_result = none;
    c1g2_block_erase_op_spec_result = none;
    c1g2_block_write_op_spec_result = none;
    c1g2_recommission_op_spec_result = none;
    c1g2_block_permalock_op_spec_result = none;
    c1g2_get_block_permalock_status_op_spec_result = none;
    client_request_op_spec_result = none;
    custom = [];
  }
  (p1, rest) ← mixed_one_of tag_report_data_one_of p bytes
  unless_empty rest p1 (do
    (p2, rest2) ← mixed_group mixed_type (suc (length rest)) tag_report_data_group2 p1 rest
    unless_empty rest2 p2 (do
      (p3, rest3) ← group (suc (length rest2)) tag_report_data_group3 p2 rest2
      finished rest3 p3))
