-- ===== src/Llrp/Replies.antt =====
-- The messages whose payload is a status alone, as `AddROSpecResponse`, and `GetSupportedVersionResponse`:
-- the generated `UnmarshalBinary` of pkg/llrp/generated_unmarshal.go and `MarshalBinary` of
-- generated_marshal.go. The bodies of the Go methods differ only in the message that they name.
pub mod RoundTrip
pub mod Refusals
use device_rfid_llrp_go.Prelude.{
  ℕ, ◌/◌, ◌*◌, ◌%◌, ◌^◌, List, [], ◌∷◌, ◌++◌, leb, ◌==◌, length, Outcome, ok, err, ◌>>=◌, ◌>>◌,
  guard,
}
use device_rfid_llrp_go.Llrp.Bytes.{uint8, uint16, slice, slice_from}
use device_rfid_llrp_go.Llrp.MessageTypes as MessageTypes
use device_rfid_llrp_go.Llrp.Params.{CodecError, encode_param}
use device_rfid_llrp_go.Llrp.Status.{LlrpStatus, status_header, unmarshal_status, param_llrp_status}

-- The required sub-parameter, and that nothing follows it.
unfoldable pub only_status : List ℕ → Outcome CodecError LlrpStatus
only_status bytes = do
  sub_type ← uint16 bytes
  guard (sub_type == param_llrp_status) (CodecError.unexpected_param sub_type)
  behind ← slice_from 2 bytes
  sub_len ← uint16 behind
  guard (leb sub_len (length bytes)) (CodecError.declares_too_much sub_len (length bytes))
  body ← slice 4 sub_len bytes
  status ← unmarshal_status body
  rest ← slice_from sub_len bytes
  guard (length rest == 0) (CodecError.trailing (length rest))
  ok status

-- The reader of message type `t`.
unfoldable pub status_message : ℕ → List ℕ → Outcome CodecError LlrpStatus
unfolding only_status
status_message t bytes =
    guard (leb 8 (length bytes)) (CodecError.wrong_length t (length bytes)) >> only_status bytes

unfoldable pub unmarshal_set_protocol_version_response : List ℕ → Outcome CodecError LlrpStatus
unmarshal_set_protocol_version_response = status_message MessageTypes.set_protocol_version_response

unfoldable pub unmarshal_add_ro_spec_response : List ℕ → Outcome CodecError LlrpStatus
unmarshal_add_ro_spec_response = status_message MessageTypes.add_ro_spec_response

unfoldable pub unmarshal_delete_ro_spec_response : List ℕ → Outcome CodecError LlrpStatus
unmarshal_delete_ro_spec_response = status_message MessageTypes.delete_ro_spec_response

unfoldable pub unmarshal_start_ro_spec_response : List ℕ → Outcome CodecError LlrpStatus
unmarshal_start_ro_spec_response = status_message MessageTypes.start_ro_spec_response

unfoldable pub unmarshal_stop_ro_spec_response : List ℕ → Outcome CodecError LlrpStatus
unmarshal_stop_ro_spec_response = status_message MessageTypes.stop_ro_spec_response

unfoldable pub unmarshal_enable_ro_spec_response : List ℕ → Outcome CodecError LlrpStatus
unmarshal_enable_ro_spec_response = status_message MessageTypes.enable_ro_spec_response

unfoldable pub unmarshal_disable_ro_spec_response : List ℕ → Outcome CodecError LlrpStatus
unmarshal_disable_ro_spec_response = status_message MessageTypes.disable_ro_spec_response

unfoldable pub unmarshal_add_access_spec_response : List ℕ → Outcome CodecError LlrpStatus
unmarshal_add_access_spec_response = status_message MessageTypes.add_access_spec_response

unfoldable pub unmarshal_delete_access_spec_response : List ℕ → Outcome CodecError LlrpStatus
unmarshal_delete_access_spec_response = status_message MessageTypes.delete_access_spec_response

unfoldable pub unmarshal_enable_access_spec_response : List ℕ → Outcome CodecError LlrpStatus
unmarshal_enable_access_spec_response = status_message MessageTypes.enable_access_spec_response

unfoldable pub unmarshal_disable_access_spec_response : List ℕ → Outcome CodecError LlrpStatus
unmarshal_disable_access_spec_response = status_message MessageTypes.disable_access_spec_response

unfoldable pub unmarshal_error_message : List ℕ → Outcome CodecError LlrpStatus
unmarshal_error_message = status_message MessageTypes.error_message

unfoldable pub unmarshal_set_reader_config_response : List ℕ → Outcome CodecError LlrpStatus
unmarshal_set_reader_config_response = status_message MessageTypes.set_reader_config_response

unfoldable pub unmarshal_close_connection_response : List ℕ → Outcome CodecError LlrpStatus
unmarshal_close_connection_response = status_message MessageTypes.close_connection_response

-- `MarshalBinary` of every message above.
unfoldable pub marshal_status_message : LlrpStatus → List ℕ
marshal_status_message p = encode_param (status_header p)

pub record SupportedVersions : Type 0 where
  pub current : ℕ
  pub max_supported : ℕ
  pub status : LlrpStatus

-- `GetSupportedVersionResponse.UnmarshalBinary`
unfoldable pub unmarshal_get_supported_version_response :
    List ℕ → Outcome CodecError SupportedVersions
unfolding only_status
unmarshal_get_supported_version_response bytes = do
  guard (leb 10 (length bytes))
      (CodecError.wrong_length MessageTypes.get_supported_version_response (length bytes))
  current ← uint8 bytes
  behind ← slice_from 1 bytes
  max_supported ← uint8 behind
  tail ← slice_from 2 bytes
  status ← only_status tail
  ok (record { current = current / 2 ^ 5; max_supported = max_supported / 2 ^ 5; status = status })

-- `GetSupportedVersionResponse.MarshalBinary`
unfoldable pub marshal_get_supported_version_response : SupportedVersions → List ℕ
marshal_get_supported_version_response r =
    (r.current * 2 ^ 5 % 2 ^ 8)
    ∷ (r.max_supported * 2 ^ 5 % 2 ^ 8)
    ∷ encode_param (status_header r.status)
