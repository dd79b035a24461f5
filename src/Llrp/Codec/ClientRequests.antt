-- ===== src/Llrp/Codec/ClientRequests.antt =====
-- `ClientRequestOpResponse` and its parameter: generated code of pkg/llrp.
use device_rfid_llrp_go.Prelude.{
  ℕ, suc, false, Option, none, some, List, leb, ◌==◌, if◌then◌else◌, length, Outcome, ◌>>=◌, ◌>>◌,
  guard,
}
use device_rfid_llrp_go.Llrp.Bytes.{be32, uint16, slice_from}
use device_rfid_llrp_go.Llrp.Params.{
  ParamHeader, ParamHeaders, header, nil, CodecError, has_enough_bytes, encode_params,
}
use device_rfid_llrp_go.Llrp.Fields.{
  uint32_at, finished, unless_empty, within, beyond, required, Cases, into, group, ◌+++◌, one,
  maybe, add_sizes,
}
use device_rfid_llrp_go.Llrp.ParamTypes.{
  param_c1g2_block_erase, param_c1g2_block_permalock, param_c1g2_block_write,
  param_c1g2_get_block_permalock_status, param_c1g2_kill, param_c1g2_lock, param_c1g2_read,
  param_c1g2_recommission, param_c1g2_write, param_client_request_op_spec,
  param_client_request_response, param_custom, param_epc_data,
}
use device_rfid_llrp_go.Llrp.MessageTypes as MessageTypes
use device_rfid_llrp_go.Llrp.Codec.Scalars.{client_request_op_spec_header}
use device_rfid_llrp_go.Llrp.Codec.Identities.{
  EpcData, epc_data_header, unmarshal_epc_data, Custom, custom_header, unmarshal_custom,
}
use device_rfid_llrp_go.Llrp.Codec.OpSpecs.{
  C1g2Read, c1g2_read_header, unmarshal_c1g2_read, C1g2Write, c1g2_write_header,
  unmarshal_c1g2_write, C1g2Kill, c1g2_kill_header, unmarshal_c1g2_kill, C1g2Lock, c1g2_lock_header,
  unmarshal_c1g2_lock,
}
use device_rfid_llrp_go.Llrp.Codec.BlockOpSpecs.{
  C1g2BlockErase, c1g2_block_erase_header, unmarshal_c1g2_block_erase, C1g2BlockWrite,
  c1g2_block_write_header, unmarshal_c1g2_block_write, C1g2Recommission, c1g2_recommission_header,
  unmarshal_c1g2_recommission, C1g2BlockPermalock, c1g2_block_permalock_header,
  unmarshal_c1g2_block_permalock, C1g2GetBlockPermalockStatus,
  c1g2_get_block_permalock_status_header, unmarshal_c1g2_get_block_permalock_status,
}

pub record ClientRequestResponse : Type 0 where
  pub access_spec_id : ℕ
  pub epc_data : EpcData
  pub c1g2_read : Option C1g2Read
  pub c1g2_write : Option C1g2Write
  pub c1g2_kill : Option C1g2Kill
  pub c1g2_recommission : Option C1g2Recommission
  pub c1g2_lock : Option C1g2Lock
  pub c1g2_block_erase : Option C1g2BlockErase
  pub c1g2_block_write : Option C1g2BlockWrite
  pub c1g2_block_permalock : Option C1g2BlockPermalock
  pub c1g2_get_block_permalock_status : Option C1g2GetBlockPermalockStatus
  pub client_request_op_spec : Option ℕ
  pub custom : Option Custom

-- `ClientRequestResponse.getHeader` and `EncodeFields`
unfoldable pub client_request_response_header : ClientRequestResponse → ParamHeader
client_request_response_header p =
    let subs : ParamHeaders =
      one (epc_data_header p.epc_data)
      +++ maybe c1g2_read_header p.c1g2_read
      +++ maybe c1g2_write_header p.c1g2_write
      +++ maybe c1g2_kill_header p.c1g2_kill
      +++ maybe c1g2_recommission_header p.c1g2_recommission
      +++ maybe c1g2_lock_header p.c1g2_lock
      +++ maybe c1g2_block_erase_header p.c1g2_block_erase
      +++ maybe c1g2_block_write_header p.c1g2_block_write
      +++ maybe c1g2_block_permalock_header p.c1g2_block_permalock
      +++ maybe c1g2_get_block_permalock_status_header p.c1g2_get_block_permalock_status
      +++ maybe client_request_op_spec_header p.client_request_op_spec
      +++ maybe custom_header p.custom
      +++ nil in
    header param_client_request_response (add_sizes 8 subs) (be32 p.access_spec_id) subs

unfoldable pub client_request_response_group1 : Cases ClientRequestResponse
client_request_response_group1 pt p =
    if pt == param_c1g2_read
    then into (within unmarshal_c1g2_read) (λ x. record p { c1g2_read = some x })
    else if pt == param_c1g2_write
    then into (within unmarshal_c1g2_write) (λ x. record p { c1g2_write = some x })
    else if pt == param_c1g2_kill
    then into (within unmarshal_c1g2_kill) (λ x. record p { c1g2_kill = some x })
    else if pt == param_c1g2_recommission
    then into (within unmarshal_c1g2_recommission) (λ x. record p { c1g2_recommission = some x })
    else if pt == param_c1g2_lock
    then into (within unmarshal_c1g2_lock) (λ x. record p { c1g2_lock = some x })
    else if pt == param_c1g2_block_erase
    then into (within unmarshal_c1g2_block_erase) (λ x. record p { c1g2_block_erase = some x })
    else if pt == param_c1g2_block_write
    then into (within unmarshal_c1g2_block_write) (λ x. record p { c1g2_block_write = some x })
    else if pt == param_c1g2_block_permalock
    then into (within unmarshal_c1g2_block_permalock)
        (λ x. record p { c1g2_block_permalock = some x })
    else if pt == param_c1g2_get_block_permalock_status
    then into (within unmarshal_c1g2_get_block_permalock_status)
        (λ x. record p { c1g2_get_block_permalock_status = some x })
    else if pt == param_client_request_op_spec
    then into (beyond uint16) (λ x. record p { client_request_op_spec = some x })
    else if pt == param_custom
    then into (within unmarshal_custom) (λ x. record p { custom = some x })
    else none

-- `ClientRequestResponse.UnmarshalBinary`
unfoldable pub unmarshal_client_request_response : List ℕ → Outcome CodecError ClientRequestResponse
unmarshal_client_request_response bytes = do
  has_enough_bytes param_client_request_response 10 (length bytes) false
  access_spec_id ← uint32_at 0 bytes
  rest ← slice_from 4 bytes
  (epc_data, rest2) ← required param_epc_data (within unmarshal_epc_data) rest
  let p : ClientRequestResponse = record {
    access_spec_id = access_spec_id;
    epc_data = epc_data;
    c1g2_read = none;
    c1g2_write = none;
    c1g2_kill = none;
    c1g2_recommission = none;
    c1g2_lock = none;
    c1g2_block_erase = none;
    c1g2_block_write = none;
    c1g2_block_permalock = none;
    c1g2_get_block_permalock_status = none;
    client_request_op_spec = none;
    custom = none;
  }
  unless_empty rest2 p (do
    (p3, rest3) ← group (suc (length rest2)) client_request_response_group1 p rest2
    finished rest3 p3)

pub record ClientRequestOpResponse : Type 0 where
  pub client_request_response : ClientRequestResponse

-- `ClientRequestOpResponse.MarshalBinary`
unfoldable pub marshal_client_request_op_response : ClientRequestOpResponse → List ℕ
marshal_client_request_op_response p =
    encode_params (one (client_request_response_header p.client_request_response) +++ nil)

-- `ClientRequestOpResponse.UnmarshalBinary`
unfoldable pub unmarshal_client_request_op_response :
    List ℕ → Outcome CodecError ClientRequestOpResponse
unmarshal_client_request_op_response bytes = do
  guard (leb 14 (length bytes))
      (CodecError.wrong_length MessageTypes.client_request_op_response (length bytes))
  (client_request_response, rest) ←
      required param_client_request_response (within unmarshal_client_request_response) bytes
  finished rest (record { client_request_response = client_request_response })
