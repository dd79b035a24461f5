-- ===== src/Llrp/Codec/AccessSpecs.antt =====
-- `AccessSpec` and its command: generated code of pkg/llrp.
use device_rfid_llrp_go.Prelude.{
  ℕ, suc, ◌/◌, ◌^◌, Bool, false, not, Option, none, some, List, [], ◌∷◌, ◌++◌, ◌==◌, if◌then◌else◌,
  length, Outcome, ◌>>=◌, ◌>>◌,
}
use device_rfid_llrp_go.Llrp.Bytes.{be16, be32, uint8, uint16, slice_from}
use device_rfid_llrp_go.Llrp.Params.{
  ParamHeader, ParamHeaders, header, nil, CodecError, has_enough_bytes,
}
use device_rfid_llrp_go.Llrp.Fields.{
  byte_at, uint16_at, uint32_at, finished, unless_empty, within, beyond, required, optional, Cases,
  into, group, u8, b2b, ◌+++◌, one, every, maybe, add_sizes,
}
use device_rfid_llrp_go.Llrp.ParamTypes.{
  param_access_command, param_access_report_spec, param_access_spec, param_access_spec_stop_trigger,
  param_c1g2_block_erase, param_c1g2_block_permalock, param_c1g2_block_write,
  param_c1g2_get_block_permalock_status, param_c1g2_kill, param_c1g2_lock, param_c1g2_read,
  param_c1g2_recommission, param_c1g2_tag_spec, param_c1g2_write, param_client_request_op_spec,
  param_custom,
}
use device_rfid_llrp_go.Llrp.Codec.Scalars.{
  client_request_op_spec_header, access_report_spec_header,
}
use device_rfid_llrp_go.Llrp.Codec.Identities.{Custom, custom_header, unmarshal_custom}
use device_rfid_llrp_go.Llrp.Codec.StopTriggers.{
  AccessSpecStopTrigger, access_spec_stop_trigger_header, unmarshal_access_spec_stop_trigger,
}
use device_rfid_llrp_go.Llrp.Codec.OpSpecs.{
  C1g2TagSpec, c1g2_tag_spec_header, unmarshal_c1g2_tag_spec, C1g2Read, c1g2_read_header,
  unmarshal_c1g2_read, C1g2Write, c1g2_write_header, unmarshal_c1g2_write, C1g2Kill,
  c1g2_kill_header, unmarshal_c1g2_kill, C1g2Lock, c1g2_lock_header, unmarshal_c1g2_lock,
}
use device_rfid_llrp_go.Llrp.Codec.BlockOpSpecs.{
  C1g2BlockErase, c1g2_block_erase_header, unmarshal_c1g2_block_erase, C1g2BlockWrite,
  c1g2_block_write_header, unmarshal_c1g2_block_write, C1g2Recommission, c1g2_recommission_header,
  unmarshal_c1g2_recommission, C1g2BlockPermalock, c1g2_block_permalock_header,
  unmarshal_c1g2_block_permalock, C1g2GetBlockPermalockStatus,
  c1g2_get_block_permalock_status_header, unmarshal_c1g2_get_block_permalock_status,
}

pub record AccessCommand : Type 0 where
  pub c1g2_tag_spec : C1g2TagSpec
  pub c1g2_read : Option C1g2Read
  pub c1g2_write : Option C1g2Write
  pub c1g2_kill : Option C1g2Kill
  pub c1g2_recommission : Option C1g2Recommission
  pub c1g2_lock : Option C1g2Lock
  pub c1g2_block_erase : Option C1g2BlockErase
  pub c1g2_block_write : Option C1g2BlockWrite
  pub c1g2_block_permalock : Option C1g2BlockPermalock
  pub c1g2_get_block_permalock_status : Option C1g2GetBlockPermalockStatus
  pub client_request_op_spec : Option ℕ
  pub custom : List Custom

-- `AccessCommand.getHeader` and `EncodeFields`
unfoldable pub access_command_header : AccessCommand → ParamHeader
access_command_header p =
    let subs : ParamHeaders =
      one (c1g2_tag_spec_header p.c1g2_tag_spec)
      +++ maybe c1g2_read_header p.c1g2_read
      +++ maybe c1g2_write_header p.c1g2_write
      +++ maybe c1g2_kill_header p.c1g2_kill
      +++ maybe c1g2_recommission_header p.c1g2_recommission
      +++ maybe c1g2_lock_header p.c1g2_lock
      +++ maybe c1g2_block_erase_header p.c1g2_block_erase
      +++ maybe c1g2_block_write_header p.c1g2_block_write
      +++ maybe c1g2_block_permalock_header p.c1g2_block_permalock
      +++ maybe c1g2_get_block_permalock_status_header p.c1g2_get_block_permalock_status
      +++ maybe client_request_op_spec_header p.client_request_op_spec
      +++ every custom_header p.custom
      +++ nil in
    header param_access_command (add_sizes 4 subs) ([]) subs

unfoldable pub access_command_group1 : Cases AccessCommand
access_command_group1 pt p =
    if pt == param_c1g2_read
    then into (within unmarshal_c1g2_read) (λ x. record p { c1g2_read = some x })
    else if pt == param_c1g2_write
    then into (within unmarshal_c1g2_write) (λ x. record p { c1g2_write = some x })
    else if pt == param_c1g2_kill
    then into (within unmarshal_c1g2_kill) (λ x. record p { c1g2_kill = some x })
    else if pt == param_c1g2_recommission
    then into (within unmarshal_c1g2_recommission) (λ x. record p { c1g2_recommission = some x })
    else if pt == param_c1g2_lock
    then into (within unmarshal_c1g2_lock) (λ x. record p { c1g2_lock = some x })
    else if pt == param_c1g2_block_erase
    then into (within unmarshal_c1g2_block_erase) (λ x. record p { c1g2_block_erase = some x })
    else if pt == param_c1g2_block_write
    then into (within unmarshal_c1g2_block_write) (λ x. record p { c1g2_block_write = some x })
    else if pt == param_c1g2_block_permalock
    then into (within unmarshal_c1g2_block_permalock)
        (λ x. record p { c1g2_block_permalock = some x })
    else if pt == param_c1g2_get_block_permalock_status
    then into (within unmarshal_c1g2_get_block_permalock_status)
        (λ x. record p { c1g2_get_block_permalock_status = some x })
    else if pt == param_client_request_op_spec
    then into (beyond uint16) (λ x. record p { client_request_op_spec = some x })
    else none

unfoldable pub access_command_group2 : Cases AccessCommand
access_command_group2 pt p =
    if pt == param_custom
    then into (within unmarshal_custom) (λ x. record p { custom = p.custom ++ (x ∷ []) })
    else none

-- `AccessCommand.UnmarshalBinary`
unfoldable pub unmarshal_access_command : List ℕ → Outcome CodecError AccessCommand
unmarshal_access_command bytes = do
  has_enough_bytes param_access_command 15 (length bytes) false
  (c1g2_tag_spec, rest) ← required param_c1g2_tag_spec (within unmarshal_c1g2_tag_spec) bytes
  let p : AccessCommand = record {
    c1g2_tag_spec = c1g2_tag_spec;
    c1g2_read = none;
    c1g2_write = none;
    c1g2_kill = none;
    c1g2_recommission = none;
    c1g2_lock = none;
    c1g2_block_erase = none;
    c1g2_block_write = none;
    c1g2_block_permalock = none;
    c1g2_get_block_permalock_status = none;
    client_request_op_spec = none;
    custom = [];
  }
  unless_empty rest p (do
    (p2, rest2) ← group (suc (length rest)) access_command_group1 p rest
    unless_empty rest2 p2 (do
      (p3, rest3) ← group (suc (length rest2)) access_command_group2 p2 rest2
      finished rest3 p3))

pub record AccessSpec : Type 0 where
  pub access_spec_id : ℕ
  pub antenna_id : ℕ
  pub air_protocol_id : ℕ
  pub is_active : Bool
  pub ro_spec_id : ℕ
  pub trigger : AccessSpecStopTrigger
  pub access_command : AccessCommand
  pub access_report_spec : Option ℕ
  pub custom : List Custom

-- `AccessSpec.getHeader` and `EncodeFields`
unfoldable pub access_spec_header : AccessSpec → ParamHeader
access_spec_header p =
    let subs : ParamHeaders =
      one (access_spec_stop_trigger_header p.trigger)
      +++ one (access_command_header p.access_command)
      +++ maybe access_report_spec_header p.access_report_spec
      +++ every custom_header p.custom
      +++ nil in
    header param_access_spec (add_sizes 16 subs)
      (be32 p.access_spec_id
        ++ be16 p.antenna_id
        ++ (u8 p.air_protocol_id ∷ b2b p.is_active 7 ∷ [])
        ++ be32 p.ro_spec_id)
      subs

unfoldable pub access_spec_group1 : Cases AccessSpec
access_spec_group1 pt p =
    if pt == param_custom
    then into (within unmarshal_custom) (λ x. record p { custom = p.custom ++ (x ∷ []) })
    else none

-- `AccessSpec.UnmarshalBinary`
unfoldable pub unmarshal_access_spec : List ℕ → Outcome CodecError AccessSpec
unmarshal_access_spec bytes = do
  has_enough_bytes param_access_spec 19 (length bytes) false
  access_spec_id ← uint32_at 0 bytes
  antenna_id ← uint16_at 4 bytes
  air_protocol_id ← byte_at 6 bytes
  b7 ← byte_at 7 bytes
  ro_spec_id ← uint32_at 8 bytes
  rest ← slice_from 12 bytes
  (trigger, rest2) ←
      required param_access_spec_stop_trigger (within unmarshal_access_spec_stop_trigger) rest
  has_enough_bytes param_access_command 4 (length rest2) false
  (access_command, rest3) ← required param_access_command (within unmarshal_access_command) rest2
  let p : AccessSpec = record {
    access_spec_id = access_spec_id;
    antenna_id = antenna_id;
    air_protocol_id = air_protocol_id;
    is_active = not (b7 / 2 ^ 7 == 0);
    ro_spec_id = ro_spec_id;
    trigger = trigger;
    access_command = access_command;
    access_report_spec = none;
    custom = [];
  }
  unless_empty rest3 p (do
    (access_report_spec, rest4) ← optional param_access_report_spec (beyond uint8) rest3
    let p_access_report_spec : AccessSpec = record p { access_report_spec = access_report_spec }
    unless_empty rest4 p_access_report_spec (do
      (p5, rest5) ← group (suc (length rest4)) access_spec_group1 p_access_report_spec rest4
      finished rest5 p5))
