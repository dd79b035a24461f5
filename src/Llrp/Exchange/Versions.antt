-- ===== src/Llrp/Exchange/Versions.antt =====
-- The negotiation of the version.
use device_rfid_llrp_go.Prelude.{
  ℕ, ◌%◌, ◌^◌, ◌≤◌, ◌<◌, ◌≡◌, refl, ap, min, none, some, List, [], ◌∷◌, arith, ◌==◌, if◌then◌else◌,
  length, take, Outcome, ok, err, panic,
}
use device_rfid_llrp_go.Llrp.MessageTypes.{error_message, set_protocol_version}
use device_rfid_llrp_go.Llrp.Header.{validate_header}
use device_rfid_llrp_go.Llrp.Messages.{Message, Payload, payload_data, new_byte_message}
use device_rfid_llrp_go.Llrp.Messages.Sending.{new_byte_message-one}
use device_rfid_llrp_go.Llrp.Status.{LlrpStatus, status_err}
use device_rfid_llrp_go.Llrp.Status.Groups.{IsLlrpStatus}
use device_rfid_llrp_go.Llrp.Requests.{unmarshal_set_protocol_version}
use device_rfid_llrp_go.Llrp.Replies.{
  SupportedVersions, marshal_status_message, marshal_get_supported_version_response,
  unmarshal_error_message,
}
use device_rfid_llrp_go.Llrp.Replies.RoundTrip.{
  status_message-marshal, unmarshal_get_supported_version_response-marshal,
}
use device_rfid_llrp_go.Llrp.Exchange.{
  ExchangeError, Negotiated, negotiate, agree, set_version, get_supported_version, read_payload,
  read_exactly, read_as, versions_by_type, check_status, status_msg_ver_unsupported,
}
use device_rfid_llrp_go.Llrp.Exchange as Exchange

set_version-version :
    (v : ℕ) (second m : Outcome ExchangeError Message) → (set_version v second m).version ≡ v
unfolding set_version
set_version-version v second m = ground arith

agree-version :
    (v : ℕ) (second : Outcome ExchangeError Message) (sv : Outcome ExchangeError SupportedVersions)
    → (agree v second sv).version ≤ v
unfolding agree
agree-version v second (ok sv) = ground (
  arith,
  λ (m : Outcome ExchangeError Message). set_version-version v second m,
  λ (m : Outcome ExchangeError Message). set_version-version sv.max_supported second m,
)
agree-version v second (err e) = ground arith
agree-version v second panic = ground arith

-- The request that `negotiate` sends.
abbrev pub version_request : ℕ → Message
version_request v = record {
  payload = Payload.stream ((v % 2 ^ 8) ∷ []);
  header = record { payload_len = 1; id = 0; typ = set_protocol_version; version = 1 };
}

request_made :
    (v : ℕ)
    → Exchange.message_of (new_byte_message set_protocol_version ((v % 2 ^ 8) ∷ []))
      ≡ ok (version_request v)
unfolding Exchange.message_of
request_made v =
    rw (new_byte_message-one set_protocol_version (v % 2 ^ 8) (unfold validate_header in refl)) refl

agree-sent :
    (v : ℕ) (second : Outcome ExchangeError Message) (sv : SupportedVersions)
    → let w = min sv.max_supported v in
      ((agree v second (ok sv)).version ≡ w)
      × ((agree v second (ok sv)).sent
          ≡ (if sv.current == w then none else some (version_request w)))
unfolding agree set_version
agree-sent v second sv = ground (arith, request_made v, request_made sv.max_supported)

-- If the reader's versions are obtained, the client's version becomes the lesser of its own and the reader's
-- highest, whatever is answered after that, and `SetProtocolVersion` is sent exactly if the reader is not at
-- that version.
pub negotiate_lesser :
    (v : ℕ) (first second : Outcome ExchangeError Message) (sv : SupportedVersions)
    → get_supported_version first ≡ ok sv
    → let w = min sv.max_supported v in
      ((negotiate v first second).version ≡ w)
      × ((negotiate v first second).sent
          ≡ (if sv.current == w then none else some (version_request w)))
unfolding negotiate
negotiate_lesser v first second sv e = rw e (agree-sent v second sv)

-- No exchange raises the client's version.
pub negotiate-le :
    (v : ℕ) (first second : Outcome ExchangeError Message) → (negotiate v first second).version ≤ v
unfolding negotiate
negotiate-le v first second = agree-version v second (get_supported_version first)

-- A reply with its whole payload in a buffer.
abbrev pub buffered : ℕ → List ℕ → Message
buffered typ bytes = record {
  payload = Payload.buffer bytes;
  header = record { payload_len = length bytes; id = 0; typ = typ; version = 1 };
}

take-length : (xs : List ℕ) → take (length xs) xs ≡ xs
take-length [] = refl
take-length (x ∷ xs) = ap (λ t. x ∷ t) (take-length xs)

read_payload-buffered : (typ : ℕ) (bytes : List ℕ) → read_payload (buffered typ bytes) ≡ ok bytes
unfolding read_payload read_exactly
read_payload-buffered typ bytes = ground (arith, take-length bytes)

error_read :
    (p : LlrpStatus) → IsLlrpStatus p → unmarshal_error_message (marshal_status_message p) ≡ ok p
unfolding unmarshal_error_message
error_read p v = status_message-marshal 100 p v

-- A reader that answers with an `ErrorMessage` of status `VersionUnsupported`, for a client of version 1 or
-- more, is no error: the client goes to version 1 and asks for nothing more.
pub negotiate_old_reader :
    (v : ℕ) (p : LlrpStatus) (second : Outcome ExchangeError Message)
    → IsLlrpStatus p
    → p.status ≡ status_msg_ver_unsupported
    → 1 ≤ v
    → negotiate v (ok (buffered error_message (marshal_status_message p))) second
      ≡ record { outcome = ok tt; version = 1; sent = none }
unfolding negotiate get_supported_version versions_by_type check_status read_as
negotiate_old_reader v p second h e le =
    rw (read_payload-buffered error_message (marshal_status_message p), error_read p h)
      (unfold agree status_err in ground arith)

set_version-sent :
    (v : ℕ) (second made : Outcome ExchangeError Message) (m : Message)
    → (set_version v second made).sent ≡ some m
    → made ≡ ok m
unfolding set_version
set_version-sent v second made m e = ground arith

agree-request :
    (v : ℕ) (second : Outcome ExchangeError Message) (o : Outcome ExchangeError SupportedVersions)
    (m : Message)
    → (agree v second o).sent ≡ some m
    → m ≡ version_request (agree v second o).version
agree-request v second (err e) m h = unfold agree in ground arith
agree-request v second panic m h = unfold agree in ground arith
agree-request v second (ok sv) m h = ground (arith, agree-sent v second sv)

request_data :
    (v : ℕ)
    → v < 8
    → ((payload_data (version_request v)).0 ≡ ok (v ∷ []))
      × (unmarshal_set_protocol_version (v ∷ []) ≡ ok 0)
unfolding payload_data unmarshal_set_protocol_version
request_data v h = ground arith

-- If `negotiate`, for a client of a version below 8, sends `SetProtocolVersion`, the payload is one byte,
-- the version that the client took. `SetProtocolVersion.UnmarshalBinary` looks for the version in the top
-- three bits, and reads version 0.
pub negotiate_request :
    (v : ℕ) (first second : Outcome ExchangeError Message) (m : Message)
    → v < 8
    → (negotiate v first second).sent ≡ some m
    → let w = (negotiate v first second).version in
      ((payload_data m).0 ≡ ok (w ∷ [])) × (unmarshal_set_protocol_version (w ∷ []) ≡ ok 0)
unfolding negotiate
negotiate_request v first second m h e =
    let low : (negotiate v first second).version < 8 = omega (arith, negotiate-le v first second) in
    rw (agree-request v second (get_supported_version first) m e) (request_data _ low)

-- What a reader of version 1.1 answers, in a buffer.
pub get_supported_version-buffered :
    (r : SupportedVersions)
    → r.current < 8
    → r.max_supported < 8
    → IsLlrpStatus r.status
    → r.status.status ≡ 0
    → get_supported_version (ok (buffered 56 (marshal_get_supported_version_response r))) ≡ ok r
unfolding get_supported_version versions_by_type check_status read_as status_err
get_supported_version-buffered r c m v good =
    rw
      (
        read_payload-buffered 56 (marshal_get_supported_version_response r),
        unmarshal_get_supported_version_response-marshal r c m v,
      )
      (ground arith)
