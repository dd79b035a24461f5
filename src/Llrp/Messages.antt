-- ===== src/Llrp/Messages.antt =====
-- `Message` of pkg/llrp/messages.go: a header with a payload that is absent, buffered or still to be read.
pub mod Buffering
pub mod Sending
use device_rfid_llrp_go.Prelude.{
  ℕ, zero, suc, ◌*◌, ◌^◌, Bool, Option, none, some, List, [], ◌∷◌, leb, ltb, ◌==◌, if◌then◌else◌,
  length, take, drop, Outcome, ok, err, panic,
}
use device_rfid_llrp_go.Llrp.MessageTypes.{converse}
use device_rfid_llrp_go.Llrp.Header.{Header, MsgError, validate_header, max_payload_sz}

abbrev pub version1_0_1 : ℕ
version1_0_1 = 1

abbrev pub version1_1 : ℕ
version1_1 = 2

-- `VersionMin` and `VersionMax`
abbrev pub version_min : ℕ
version_min = version1_0_1

abbrev pub version_max : ℕ
version_max = version1_1

-- `MaxBufferedPayloadSz`
abbrev pub max_buffered_payload_sz : ℕ
max_buffered_payload_sz = 2 ^ 10 * 640

-- The reader behind `Message.payload`: nil; a `bytes.Buffer`, which is a `byteProvider`, with what it
-- holds; or any other reader, with the bytes that it would still give before EOF.
pub data Payload : Type 0 where
  absent : Payload
  buffer : List ℕ → Payload
  stream : List ℕ → Payload

pub record Message : Type 0 where
  pub payload : Payload
  pub header : Header

fresh_message : Payload → ℕ → ℕ → Message
fresh_message p payload_len typ = record {
  payload = p;
  header = record { payload_len = payload_len; id = 0; typ = typ; version = version_min };
}

-- The checks of `newMessage` on its reader, once the header is valid.
message_of : Option (List ℕ) → ℕ → ℕ → Outcome MsgError Message
unfolding fresh_message
message_of (some bytes) payload_len typ =
    if payload_len == 0 then panic else ok (fresh_message (Payload.stream bytes) payload_len typ)
message_of none payload_len typ =
    if payload_len == 0 then ok (fresh_message Payload.absent payload_len typ) else panic

-- `newMessage` takes nil or a reader, here by the bytes that it gives. It panics on an invalid header
-- and where the reader and the length disagree about being empty.
unfoldable pub new_message : Option (List ℕ) → ℕ → ℕ → Outcome MsgError Message
unfolding message_of
new_message src payload_len typ = elim (validate_header payload_len typ) [
  | some e ↦ panic
  | none ↦ message_of src payload_len typ
]

-- `NewHdrOnlyMsg`
unfoldable pub new_hdr_only_msg : ℕ → Outcome MsgError Message
unfolding new_message
new_hdr_only_msg typ = new_message none 0 typ

-- `NewByteMessage`
unfoldable pub new_byte_message : ℕ → List ℕ → Outcome MsgError Message
unfolding new_message new_hdr_only_msg
new_byte_message typ payload =
    if length payload == 0
    then new_hdr_only_msg typ
    else if ltb max_payload_sz (length payload)
    then err (MsgError.payload_too_big (length payload))
    else new_message (some payload) (length payload) typ

-- The errors of `Message.data` and `Message.isResponseTo`.
pub data DataError : Type 0 where
  over_buffer_limit : ℕ → DataError
  short_read : ℕ → DataError
  unknown_request : ℕ → DataError
  type_mismatch : ℕ → ℕ → DataError

-- What `io.ReadFull` leaves of a stream after it has asked for `n` bytes.
unfoldable pub read_full : ℕ → List ℕ → Outcome DataError (List ℕ) × List ℕ
read_full n bytes =
    if leb n (length bytes)
    then (ok (take n bytes), drop n bytes)
    else (err (DataError.short_read (length bytes)), [])

buffer_payload :
    Message → Outcome DataError (List ℕ) × List ℕ → Outcome DataError (List ℕ) × Message
buffer_payload m (ok bytes, rest) = (ok bytes, record m { payload = Payload.buffer bytes })
buffer_payload m (err e, rest) = (err e, record m { payload = Payload.stream rest })
buffer_payload m (panic, rest) = (panic, m)

payload_bytes : Payload → Message → Outcome DataError (List ℕ) × Message
unfolding read_full buffer_payload
payload_bytes Payload.absent m = (ok [], m)
payload_bytes (Payload.buffer bytes) m = (ok bytes, m)
payload_bytes (Payload.stream bytes) m =
    if ltb max_buffered_payload_sz m.header.payload_len
    then (err (DataError.over_buffer_limit m.header.payload_len), m)
    else buffer_payload m (read_full m.header.payload_len bytes)

-- `Message.data` reads an unbuffered payload and keeps it as a buffer. nil stands as no bytes.
unfoldable pub payload_data : Message → Outcome DataError (List ℕ) × Message
unfolding payload_bytes
payload_data m = payload_bytes m.payload m

-- `Message.Close`: whatever is unread of a stream is read and dropped. The reader's own failures are not
-- modelled.
close_payload : Payload → Payload
close_payload (Payload.stream bytes) = Payload.stream []
close_payload p = p

unfoldable pub close : Message → Message
unfolding close_payload
close m = record m { payload = close_payload m.payload }

-- `Message.isResponseTo`
unfoldable pub is_response_to : Message → ℕ → Option DataError
is_response_to m req_type = elim (converse req_type) [
  | none ↦ some (DataError.unknown_request req_type)
  | some expected ↦
      if m.header.typ == expected
      then none
      else some (DataError.type_mismatch m.header.typ expected)
]
