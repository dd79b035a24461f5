-- ===== src/Llrp/Codec/RoundTrip/Scalars.antt =====
-- TLV parameters that are a single number or flag, as `UTCTimestamp`.
use device_rfid_llrp_go.Prelude.{ℕ, refl, arith, IsU8, IsU16, IsU32, IsU64}
use device_rfid_llrp_go.Llrp.Bytes.{uint8, uint16, uint32, uint64}
use device_rfid_llrp_go.Llrp.Params.{is_tv}
use device_rfid_llrp_go.Llrp.ParamTypes.{
  param_c1g2_tag_inventory_state_unaware_filter_action, param_loop_spec, param_rf_receiver,
  param_utc_timestamp,
}
use device_rfid_llrp_go.Llrp.Fields.{beyond}
use device_rfid_llrp_go.Llrp.Fields.Coded.{Coding, IsRead}
use device_rfid_llrp_go.Llrp.Codec.Scalars.{
  utc_timestamp_header, rf_receiver_header, c1g2_tag_inventory_state_unaware_filter_action_header,
  loop_spec_header,
}

abbrev pub utc_timestamp_coding : Coding ℕ
utc_timestamp_coding = record {
  of_type = param_utc_timestamp;
  head = utc_timestamp_header;
  read = beyond uint64;
}

pub utc_timestamp-IsRead : (x : ℕ) → IsU64 x → IsRead utc_timestamp_coding x
unfolding utc_timestamp_header is_tv
utc_timestamp-IsRead x v = (ground arith, refl, λ rest. ground arith)

abbrev pub rf_receiver_coding : Coding ℕ
rf_receiver_coding = record {
  of_type = param_rf_receiver;
  head = rf_receiver_header;
  read = beyond uint16;
}

pub rf_receiver-IsRead : (x : ℕ) → IsU16 x → IsRead rf_receiver_coding x
unfolding rf_receiver_header is_tv
rf_receiver-IsRead x v = (ground arith, refl, λ rest. ground arith)

abbrev pub c1g2_tag_inventory_state_unaware_filter_action_coding : Coding ℕ
c1g2_tag_inventory_state_unaware_filter_action_coding = record {
  of_type = param_c1g2_tag_inventory_state_unaware_filter_action;
  head = c1g2_tag_inventory_state_unaware_filter_action_header;
  read = beyond uint8;
}

pub c1g2_tag_inventory_state_unaware_filter_action-IsRead :
    (x : ℕ) → IsU8 x → IsRead c1g2_tag_inventory_state_unaware_filter_action_coding x
unfolding c1g2_tag_inventory_state_unaware_filter_action_header is_tv
c1g2_tag_inventory_state_unaware_filter_action-IsRead x v =
    (ground arith, refl, λ rest. ground arith)

abbrev pub loop_spec_coding : Coding ℕ
loop_spec_coding = record {
  of_type = param_loop_spec;
  head = loop_spec_header;
  read = beyond uint32;
}

pub loop_spec-IsRead : (x : ℕ) → IsU32 x → IsRead loop_spec_coding x
unfolding loop_spec_header is_tv
loop_spec-IsRead x v = (ground arith, refl, λ rest. ground arith)
