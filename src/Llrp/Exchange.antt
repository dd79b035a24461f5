-- ===== src/Llrp/Exchange.antt =====
-- What `Client` of pkg/llrp/reader.go does with a reply: `SendFor`, `Shutdown`, `getSupportedVersion` and
-- `negotiate`. What `send` returned is an argument.
pub mod Versions
pub mod Replying
mod Examples
use device_rfid_llrp_go.Prelude.{
  ℕ, ◌%◌, ◌^◌, Bool, true, false, Option, none, some, List, [], ◌∷◌, leb, ltb, ◌==◌, if◌then◌else◌,
  length, take, Outcome, ok, err, panic, ◌>>=◌, ◌>>◌,
}
use device_rfid_llrp_go.Llrp.MessageTypes.{
  error_message, get_supported_version_response, close_connection_response, set_protocol_version,
}
use device_rfid_llrp_go.Llrp.Header.{Header, MsgError}
use device_rfid_llrp_go.Llrp.Messages.{
  Payload, absent, buffer, stream, Message, DataError, payload_data, is_response_to,
  new_byte_message, version1_0_1,
}
use device_rfid_llrp_go.Llrp.Params.{CodecError}
use device_rfid_llrp_go.Llrp.Status.{LlrpStatus, unmarshal_status, status_err, status_success}
use device_rfid_llrp_go.Llrp.Replies.{
  SupportedVersions, unmarshal_error_message, unmarshal_get_supported_version_response,
  unmarshal_set_protocol_version_response, unmarshal_close_connection_response,
}

-- `StatusMsgVerUnsupported`
abbrev pub status_msg_ver_unsupported : ℕ
status_msg_ver_unsupported = 110

pub data ExchangeError : Type 0 where
  not_sent : ExchangeError
  -- `io.ReadFull` ended early
  short_payload : ExchangeError
  unreadable : CodecError → ExchangeError
  no_data : DataError → ExchangeError
  bad_message : MsgError → ExchangeError
  unexpected_type : ℕ → ExchangeError
  status_error : LlrpStatus → ExchangeError
  -- an ErrorMessage in place of the reply; its text ends in `%!w(<nil>)` where the status is success
  error_reply : Option LlrpStatus → ExchangeError

-- An error of a reader, as one of the exchange.
unfoldable pub read_as {ℓ} : {A : Type ℓ} → Outcome CodecError A → Outcome ExchangeError A
read_as (ok a) = ok a
read_as (err e) = err (ExchangeError.unreadable e)
read_as panic = panic

data_of : Outcome DataError (List ℕ) → Outcome ExchangeError (List ℕ)
data_of (ok bytes) = ok bytes
data_of (err e) = err (ExchangeError.no_data e)
data_of panic = panic

message_of : Outcome MsgError Message → Outcome ExchangeError Message
message_of (ok m) = ok m
message_of (err e) = err (ExchangeError.bad_message e)
message_of panic = panic

-- `if err := s.Err(); err != nil { return err }`
unfoldable pub check_status : LlrpStatus → Outcome ExchangeError (Unit {0})
check_status s = elim (status_err s) [ none ↦ ok tt | some e ↦ err (ExchangeError.status_error e) ]

-- `s.Err()` where the reply has a status.
unfoldable pub by_status : {A : Type 0} → A → Option LlrpStatus → Outcome ExchangeError A
unfolding check_status
by_status a none = ok a
by_status a (some s) = check_status s >> ok a

-- `SendFor`, once `SendMessage` has returned the type and the data of the reply: `in_type` and `read` are
-- those of its argument `in`, and `status_of` is `Status` where `in` is a `Statusable`.
unfoldable pub send_for_reply :
    {A : Type 0}
    → ℕ
    → (List ℕ → Outcome CodecError A)
    → (A → Option LlrpStatus)
    → ℕ
    → List ℕ
    → Outcome ExchangeError A
unfolding read_as by_status
send_for_reply in_type read status_of typ bytes = elim (typ == in_type) [
  | true ↦ do a ← read_as (read bytes); by_status a (status_of a)
  | false ↦ elim (typ == error_message) [
    | true ↦ do
      s ← read_as (unmarshal_error_message bytes)
      err (ExchangeError.error_reply (status_err s))
    | false ↦ err (ExchangeError.unexpected_type typ)
  ]
]

-- `Shutdown`, once `SendMessage` has returned: ok where it goes on to `Close`. The payload of an
-- `ErrorMessage` is read as a bare status.
unfoldable pub shutdown_reply : ℕ → List ℕ → Outcome ExchangeError (Unit {0})
unfolding read_as check_status
shutdown_reply typ bytes = elim (typ == close_connection_response) [
  | true ↦ read_as (unmarshal_close_connection_response bytes) >>= check_status
  | false ↦ elim (typ == error_message) [
    | true ↦ read_as (unmarshal_status bytes) >>= check_status
    | false ↦ err (ExchangeError.unexpected_type typ)
  ]
]

-- `io.ReadFull(resp.payload, data)`: a nil reader panics on its first read.
read_exactly : ℕ → List ℕ → Outcome ExchangeError (List ℕ)
read_exactly n bytes =
    if leb n (length bytes) then ok (take n bytes) else err ExchangeError.short_payload

unfoldable pub read_payload : Message → Outcome ExchangeError (List ℕ)
unfolding read_exactly
read_payload m = elim (m.payload) [
  | absent ↦ if m.header.payload_len == 0 then ok [] else panic
  | buffer bytes ↦ read_exactly m.header.payload_len bytes
  | stream bytes ↦ read_exactly m.header.payload_len bytes
]

abbrev success : LlrpStatus
success = record {
  status = status_success;
  error_description = [];
  field_error = none;
  parameter_error = none;
}

-- `getSupportedVersion` on the reply by its type.
unfoldable pub versions_by_type : ℕ → List ℕ → Outcome ExchangeError SupportedVersions
unfolding read_as
versions_by_type typ bytes = elim (typ == error_message) [
  | true ↦ do
    s ← read_as (unmarshal_error_message bytes)
    ok (record {
      current = version1_0_1;
      max_supported = version1_0_1;
      status = if s.status == status_msg_ver_unsupported then success else s;
    })
  | false ↦ elim (typ == get_supported_version_response) [
    | true ↦ read_as (unmarshal_get_supported_version_response bytes)
    | false ↦ err (ExchangeError.unexpected_type typ)
  ]
]

-- `getSupportedVersion`
unfoldable pub get_supported_version :
    Outcome ExchangeError Message → Outcome ExchangeError SupportedVersions
unfolding read_payload versions_by_type check_status
get_supported_version reply = do
  resp ← reply
  bytes ← read_payload resp
  sv ← versions_by_type resp.header.typ bytes
  check_status sv.status
  ok sv

-- The reply to `SetProtocolVersion`.
unfoldable pub check_set_version : Outcome ExchangeError Message → Outcome ExchangeError (Unit {0})
unfolding data_of read_as check_status
check_set_version reply = do
  resp ← reply
  elim (is_response_to resp set_protocol_version) [
    | some e ↦ err (ExchangeError.no_data e)
    | none ↦ do
      bytes ← data_of (payload_data resp).0
      s ← read_as (unmarshal_set_protocol_version_response bytes)
      check_status s
  ]

-- The outcome, the client's version after it, and the request `SetProtocolVersion` if it was sent.
pub record Negotiated : Type 0 where
  pub outcome : Outcome ExchangeError (Unit {0})
  pub version : ℕ
  pub sent : Option Message

set_version : ℕ → Outcome ExchangeError Message → Outcome ExchangeError Message → Negotiated
unfolding check_set_version
set_version version second (ok m) = record {
  outcome = check_set_version second;
  version = version;
  sent = some m;
}
set_version version second (err e) = record { outcome = err e; version = version; sent = none }
set_version version second panic = record { outcome = panic; version = version; sent = none }

agree : ℕ → Outcome ExchangeError Message → Outcome ExchangeError SupportedVersions → Negotiated
unfolding set_version message_of
agree version second (err e) = record { outcome = err e; version = version; sent = none }
agree version second panic = record { outcome = panic; version = version; sent = none }
agree version second (ok sv) =
    let v = if ltb sv.max_supported version then sv.max_supported else version in
    if sv.current == v
    then record { outcome = ok tt; version = v; sent = none }
    else set_version v second
        (message_of (new_byte_message set_protocol_version ((v % 2 ^ 8) ∷ [])))

-- `negotiate`, on what `send` returns for its two requests.
unfoldable pub negotiate :
    ℕ → Outcome ExchangeError Message → Outcome ExchangeError Message → Negotiated
unfolding get_supported_version agree
negotiate version first second = agree version second (get_supported_version first)
