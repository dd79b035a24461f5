-- ===== src/Llrp/Replies/RoundTrip.antt =====
-- The replies that were written are read back.
use device_rfid_llrp_go.Prelude.{
  ℕ, ◌+◌, ◌≤◌, ◌<◌, ◌≡◌, refl, sym, ap, ◌∙◌, true, List, [], ◌∷◌, ◌++◌, arith, All, length, leb,
  Outcome, ok, IsU16,
}
use device_rfid_llrp_go.Llrp.Bytes.{be16, uint16, slice, slice_from}
use device_rfid_llrp_go.Llrp.Params.{CodecError, encode_param}
use device_rfid_llrp_go.Llrp.Params.Sizes.{framed, slice-framed, slice_from-framed}
use device_rfid_llrp_go.Llrp.Status.{LlrpStatus, status_header, unmarshal_status}
use device_rfid_llrp_go.Llrp.Status.Groups.{IsLlrpStatus, status_size}
use device_rfid_llrp_go.Llrp.Status.StatusRoundTrip.{unmarshal_status-encode_param}
use device_rfid_llrp_go.Llrp.Replies.{
  only_status, status_message, marshal_status_message, SupportedVersions,
  marshal_get_supported_version_response, unmarshal_get_supported_version_response,
}
use device_rfid_llrp_go.Llrp.Replies as Replies
use mathlib.Core.List.{append-nil}

-- The steps of the reader, each of which succeeds.
only_status_read :
    (bytes behind body : List ℕ) (sz : ℕ) (p : LlrpStatus)
    → uint16 {E = CodecError} bytes ≡ ok 287
    → slice_from {E = CodecError} 2 bytes ≡ ok behind
    → uint16 {E = CodecError} behind ≡ ok sz
    → leb sz (length bytes) ≡ true
    → slice {E = CodecError} 4 sz bytes ≡ ok body
    → unmarshal_status body ≡ ok p
    → slice_from {E = CodecError} sz bytes ≡ ok []
    → only_status bytes ≡ ok p
unfolding only_status
only_status_read bytes behind body sz p e1 e2 e3 e4 e5 e6 e7 = rw (e1, e2, e3, e5, e6, e7, e4) refl

module _ (sz : ℕ) (body : List ℕ) (ss : IsU16 sz) (whole : sz ≡ 4 + length body) where
  sub_type_read : uint16 {E = CodecError} (framed 287 sz body []) ≡ ok 287
  sub_type_read = ground arith

  behind_read : slice_from {E = CodecError} 2 (framed 287 sz body []) ≡ ok (be16 sz ++ (body ++ []))
  behind_read = ground arith

  sub_len_read : uint16 {E = CodecError} (be16 sz ++ (body ++ [])) ≡ ok sz
  sub_len_read = ground arith

  framed_fits : leb sz (length (framed 287 sz body [])) ≡ true
  framed_fits = rw append-nil (ground arith)

  only_status-framed :
      (p : LlrpStatus) → unmarshal_status body ≡ ok p → only_status (framed 287 sz body []) ≡ ok p
  only_status-framed p e =
      only_status_read (framed 287 sz body []) (be16 sz ++ (body ++ [])) body sz p sub_type_read
        behind_read sub_len_read framed_fits (slice-framed 287 sz body [] (omega arith) ss whole) e
        (slice_from-framed 287 sz body [] (omega arith) ss whole)

only_status-encode_param :
    (p : LlrpStatus)
    → IsLlrpStatus p
    → (only_status (encode_param (status_header p)) ≡ ok p)
      × (8 ≤ length (encode_param (status_header p)))
only_status-encode_param p v =
    let (body, e, sz, r) = unmarshal_status-encode_param p v in
    let whole : encode_param (status_header p) ≡ framed 287 (status_size p) body [] =
      e ∙ ap (λ (b : List ℕ). (be16 287 ++ be16 (status_size p)) ++ b) (sym (append-nil body)) in
    (
      ap only_status whole ∙ only_status-framed (status_size p) body (omega arith) sz p r,
      rw (whole, append-nil) (omega arith),
    )

pub status_message-marshal :
    (t : ℕ) (p : LlrpStatus) → IsLlrpStatus p → status_message t (marshal_status_message p) ≡ ok p
unfolding status_message marshal_status_message
status_message-marshal t p v = ground (arith, only_status-encode_param p v)

-- The readers of all messages that hold a status alone.
abbrev pub status_readers : List (List ℕ → Outcome CodecError LlrpStatus)
status_readers =
    Replies.unmarshal_set_protocol_version_response ∷ Replies.unmarshal_add_ro_spec_response
    ∷ Replies.unmarshal_delete_ro_spec_response ∷ Replies.unmarshal_start_ro_spec_response
    ∷ Replies.unmarshal_stop_ro_spec_response ∷ Replies.unmarshal_enable_ro_spec_response
    ∷ Replies.unmarshal_disable_ro_spec_response ∷ Replies.unmarshal_add_access_spec_response
    ∷ Replies.unmarshal_delete_access_spec_response ∷ Replies.unmarshal_enable_access_spec_response
    ∷ Replies.unmarshal_disable_access_spec_response ∷ Replies.unmarshal_error_message
    ∷ Replies.unmarshal_set_reader_config_response ∷ Replies.unmarshal_close_connection_response
    ∷ []

-- Each of the fourteen messages that hold a status alone is read back after it was written, for every status
-- that fits a parameter.
pub status_readers-marshal_status_message :
    (p : LlrpStatus)
    → IsLlrpStatus p
    → All (λ read. read (marshal_status_message p) ≡ ok p) status_readers
unfolding Replies.unmarshal_set_protocol_version_response Replies.unmarshal_add_ro_spec_response
    Replies.unmarshal_delete_ro_spec_response Replies.unmarshal_start_ro_spec_response
    Replies.unmarshal_stop_ro_spec_response Replies.unmarshal_enable_ro_spec_response
    Replies.unmarshal_disable_ro_spec_response Replies.unmarshal_add_access_spec_response
    Replies.unmarshal_delete_access_spec_response Replies.unmarshal_enable_access_spec_response
    Replies.unmarshal_disable_access_spec_response Replies.unmarshal_error_message
    Replies.unmarshal_set_reader_config_response Replies.unmarshal_close_connection_response
status_readers-marshal_status_message p v =
    let r = λ (t : ℕ). status_message-marshal t p v in
    (
      r _,
      (r _, (r _, (r _, (r _, (r _, (r _, (r _, (r _, (r _, (r _, (r _, (r _, (r _, tt))))))))))))),
    )

-- `GetSupportedVersionResponse` is read back after it was written, for versions of three bits and a status
-- that fits a parameter.
pub unmarshal_get_supported_version_response-marshal :
    (r : SupportedVersions)
    → r.current < 8
    → r.max_supported < 8
    → IsLlrpStatus r.status
    → unmarshal_get_supported_version_response (marshal_get_supported_version_response r) ≡ ok r
unfolding unmarshal_get_supported_version_response marshal_get_supported_version_response
unmarshal_get_supported_version_response-marshal r c m v =
    ground (arith, only_status-encode_param r.status v)
