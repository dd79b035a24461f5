-- ===== src/Llrp/Examples.antt =====
-- The theorems on the codec of pkg/llrp at concrete inputs.
use device_rfid_llrp_go.Prelude.{
  ℕ, ◌+◌, ◌≤◌, ◌≡◌, ◌≢◌, ◌↔◌, refl, none, some, List, [], ◌∷◌, ◌++◌, arith, length, All, ok, err,
  panic,
}
use device_rfid_llrp_go.Llrp.Bytes.{be16}
use device_rfid_llrp_go.Llrp.MessageTypes.{converse, find, mirror_type}
use device_rfid_llrp_go.Llrp.MessageTypes.Mirror.{converse_involutive}
use device_rfid_llrp_go.Llrp.Header.{
  Header, read_fields, unmarshal_binary, marshal_binary, validate_header, header_bytes,
}
use device_rfid_llrp_go.Llrp.Header.RoundTrip.{
  unmarshal_binary-marshal_binary, marshal_binary-unmarshal_binary,
}
use device_rfid_llrp_go.Llrp.Messages.{
  Message, Payload, payload_data, read_full, max_buffered_payload_sz,
}
use device_rfid_llrp_go.Llrp.Messages.Buffering.{payload_data-length}
use device_rfid_llrp_go.Llrp.Messages.Sending.{new_byte_message-one, payload_data-new_byte_message}
use device_rfid_llrp_go.Llrp.Params.{CodecError, encode_param}
use device_rfid_llrp_go.Llrp.Status.{
  FieldError, Fault, ParameterError, plain, nested, LlrpStatus, nothing_found,
  parameter_error_header, status_header, read_parameter_error, unmarshal_status, param_group,
}
use device_rfid_llrp_go.Llrp.Status.Total.{unmarshal_status-ne-exhausted}
use device_rfid_llrp_go.Llrp.Status.RoundTrip.{read_parameter_error-encode_param}
use device_rfid_llrp_go.Llrp.Status.Groups.{IsLlrpStatus, status_size}
use device_rfid_llrp_go.Llrp.Status.StatusRoundTrip.{unmarshal_status-encode_param}
use device_rfid_llrp_go.Llrp.Replies.{
  SupportedVersions, marshal_status_message, marshal_get_supported_version_response,
  unmarshal_get_supported_version_response,
}
use device_rfid_llrp_go.Llrp.Replies.RoundTrip.{
  status_readers, status_readers-marshal_status_message,
  unmarshal_get_supported_version_response-marshal,
}
use device_rfid_llrp_go.Llrp.Replies.Refusals.{param_group_bad_length}
use device_rfid_llrp_go.Llrp.Requests.{marshal_id_message}
use device_rfid_llrp_go.Llrp.Requests.Laws.{id_readers, id_readers_exact}

abbrev head : Header
head = record { payload_len = 300; id = 9; typ = 30; version = 1 }

abbrev head_out : List ℕ
head_out = 4 ∷ 30 ∷ 0 ∷ 0 ∷ 1 ∷ 54 ∷ 0 ∷ 0 ∷ 0 ∷ 9 ∷ []

abbrev no_header : Header
no_header = record { payload_len = 0; id = 0; typ = 0; version = 0 }

unmarshal_binary-marshal_binary_example :
    unmarshal_binary no_header (head_out ++ 5 ∷ []) ≡ (head, none)
unmarshal_binary-marshal_binary_example =
    unmarshal_binary-marshal_binary head no_header head_out (5 ∷ []) (omega arith) (omega arith)
      (unfold marshal_binary validate_header header_bytes in refl)

marshal_binary-unmarshal_binary_example : marshal_binary head ≡ ok head_out
marshal_binary-unmarshal_binary_example =
    marshal_binary-unmarshal_binary 4 30 0 0 1 54 0 0 0 9 (omega arith) no_header head
      (ground arith) (unfold unmarshal_binary read_fields in refl) (unfold validate_header in refl)

converse_involutive_example : converse 30 ≡ some 20
converse_involutive_example = converse_involutive 20 30 (unfold converse find mirror_type in refl)

abbrev streamed : Message
streamed = record {
  payload = Payload.stream (7 ∷ 8 ∷ 9 ∷ []);
  header = record { payload_len = 2; id = 1; typ = 62; version = 1 };
}

payload_data-length_example :
    (length {A = ℕ} (7 ∷ 8 ∷ []) ≡ 2)
    × ((record streamed { payload = Payload.buffer (7 ∷ 8 ∷ []) }).header ≡ streamed.header)
    × (2 ≤ max_buffered_payload_sz)
payload_data-length_example =
    payload_data-length streamed (record streamed { payload = Payload.buffer (7 ∷ 8 ∷ []) })
      (7 ∷ 8 ∷ []) (7 ∷ 8 ∷ 9 ∷ []) refl (unfold payload_data read_full in refl)

abbrev one_byte : Message
one_byte = record {
  payload = Payload.stream (64 ∷ []);
  header = record { payload_len = 1; id = 0; typ = 47; version = 1 };
}

payload_data-new_byte_message_example : (payload_data one_byte).0 ≡ ok (64 ∷ [])
payload_data-new_byte_message_example =
    payload_data-new_byte_message 47 (64 ∷ []) one_byte
      (new_byte_message-one 47 64 (unfold validate_header in refl)) (omega arith)

abbrev field : FieldError
field = record { field_index = 3; error_code = 101 }

abbrev fault : Fault
fault = record { parameter_type = 177; error_code = 202; field_error = some field }

abbrev fault_chain : ParameterError
fault_chain =
    nested (record { parameter_type = 178; error_code = 203; field_error = none }) (plain fault)

abbrev status : LlrpStatus
status = record {
  status = 100;
  error_description = 111 ∷ 104 ∷ [];
  field_error = some field;
  parameter_error = some fault_chain;
}

status-IsLlrpStatus : IsLlrpStatus status
status-IsLlrpStatus = ground arith

read_parameter_error-encode_param_example :
    (body : List ℕ) × (encode_param (parameter_error_header fault_chain)
      ≡ (be16 289 ++ be16 24) ++ body)
    × (read_parameter_error body ≡ ok fault_chain)
read_parameter_error-encode_param_example =
    read_parameter_error-encode_param fault_chain (ground arith) (omega arith)

unmarshal_status-encode_param_example :
    (body : List ℕ) × (encode_param (status_header status)
      ≡ (be16 287 ++ be16 (status_size status)) ++ body)
    × (status_size status ≡ 4 + length body)
    × (unmarshal_status body ≡ ok status)
unmarshal_status-encode_param_example = unmarshal_status-encode_param status status-IsLlrpStatus

unmarshal_status-ne-exhausted_example :
    unmarshal_status (0 ∷ 0 ∷ 0 ∷ 0 ∷ 1 ∷ 33 ∷ 0 ∷ 8 ∷ []) ≢ err CodecError.exhausted
unmarshal_status-ne-exhausted_example =
    unmarshal_status-ne-exhausted (0 ∷ 0 ∷ 0 ∷ 0 ∷ 1 ∷ 33 ∷ 0 ∷ 8 ∷ [])

status_readers-marshal_status_message_example :
    All (λ read. read (marshal_status_message status) ≡ ok status) status_readers
status_readers-marshal_status_message_example =
    status_readers-marshal_status_message status status-IsLlrpStatus

abbrev versions : SupportedVersions
versions = record { current = 1; max_supported = 2; status = status }

unmarshal_get_supported_version_response-marshal_example :
    unmarshal_get_supported_version_response (marshal_get_supported_version_response versions)
    ≡ ok versions
unmarshal_get_supported_version_response-marshal_example =
    unmarshal_get_supported_version_response-marshal versions (omega arith) (omega arith)
      status-IsLlrpStatus

param_group_bad_length_example :
    (param_group 5 nothing_found (be16 288 ++ (be16 3 ++ [])) ≡ panic)
    × (param_group 5 nothing_found (be16 289 ++ (be16 3 ++ [])) ≡ panic)
param_group_bad_length_example = param_group_bad_length 4 3 nothing_found [] (omega arith)

id_readers_exact_example :
    All
      (λ read. (read (0 ∷ 0 ∷ 1 ∷ 2 ∷ []) ≡ ok 258) ↔ (marshal_id_message 258 ≡ 0 ∷ 0 ∷ 1 ∷ 2 ∷ []))
      id_readers
id_readers_exact_example = id_readers_exact 258 (0 ∷ 0 ∷ 1 ∷ 2 ∷ []) (omega arith) (ground arith)
