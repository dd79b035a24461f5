-- ===== src/Llrp/Exchange/Examples.antt =====
-- The theorems on replies at a reader of version 1.0.1 and one of version 1.1.
use device_rfid_llrp_go.Prelude.{ℕ, ◌≡◌, ◌↔◌, refl, none, some, [], ◌∷◌, arith, Outcome, ok, err}
use device_rfid_llrp_go.Llrp.MessageTypes.{close_connection_response}
use device_rfid_llrp_go.Llrp.Messages.{Message, Payload, payload_data}
use device_rfid_llrp_go.Llrp.Params.{declares_too_much}
use device_rfid_llrp_go.Llrp.Status.{LlrpStatus}
use device_rfid_llrp_go.Llrp.Requests.{unmarshal_set_protocol_version}
use device_rfid_llrp_go.Llrp.Replies.{
  SupportedVersions, marshal_status_message, marshal_get_supported_version_response,
  unmarshal_close_connection_response,
}
use device_rfid_llrp_go.Llrp.Exchange.{
  ExchangeError, not_sent, unreadable, negotiate, get_supported_version, send_for_reply,
  shutdown_reply,
}
use device_rfid_llrp_go.Llrp.Exchange.Versions.{
  buffered, version_request, negotiate_lesser, negotiate_old_reader, negotiate_request,
  get_supported_version-buffered,
}
use device_rfid_llrp_go.Llrp.Exchange.Replying.{
  IsGood, shutdown_reply-error_message, send_for_reply-eq-ok,
}

abbrev plain_status : ℕ → LlrpStatus
plain_status code = record {
  status = code;
  error_description = [];
  field_error = none;
  parameter_error = none;
}

abbrev at_first : SupportedVersions
at_first = record { current = 1; max_supported = 2; status = plain_status 0 }

abbrev reply : Outcome ExchangeError Message
reply = ok (buffered 56 (marshal_get_supported_version_response at_first))

reply_read : get_supported_version reply ≡ ok at_first
reply_read = get_supported_version-buffered at_first (omega arith) (omega arith) (ground arith) refl

negotiate_lesser_example :
    ((negotiate 2 reply (err not_sent)).version ≡ 2)
    × ((negotiate 2 reply (err not_sent)).sent ≡ some (version_request 2))
negotiate_lesser_example = negotiate_lesser 2 reply (err not_sent) at_first reply_read

negotiate_request_example :
    let w = (negotiate 2 reply (err not_sent)).version in
    ((payload_data (version_request 2)).0 ≡ ok (w ∷ []))
    × (unmarshal_set_protocol_version (w ∷ []) ≡ ok 0)
negotiate_request_example =
    negotiate_request 2 reply (err not_sent) (version_request 2) (omega arith)
      (negotiate_lesser 2 reply (err not_sent) at_first reply_read).1

negotiate_old_reader_example :
    negotiate 2 (ok (buffered 100 (marshal_status_message (plain_status 110)))) (err not_sent)
    ≡ record { outcome = ok tt; version = 1; sent = none }
negotiate_old_reader_example =
    negotiate_old_reader 2 (plain_status 110) (err not_sent) (ground arith) refl (omega arith)

shutdown_reply-error_message_example :
    shutdown_reply 100 (marshal_status_message (plain_status 0))
    ≡ err (unreadable (declares_too_much 8 4))
shutdown_reply-error_message_example = shutdown_reply-error_message (plain_status 0) (ground arith)

send_for_reply-eq-ok_example :
    (send_for_reply 4 unmarshal_close_connection_response
        (λ s. some s)
        4
        (marshal_status_message (plain_status 0))
      ≡ ok (plain_status 0))
    ↔ ((close_connection_response ≡ 4)
        × (unmarshal_close_connection_response (marshal_status_message (plain_status 0))
            ≡ ok (plain_status 0))
        × IsGood (some (plain_status 0)))
send_for_reply-eq-ok_example =
    send_for_reply-eq-ok (λ s. some s) 4 unmarshal_close_connection_response 4
      (marshal_status_message (plain_status 0)) (plain_status 0)

abbrev huge : Message
huge = record {
  payload = Payload.absent;
  header = record { payload_len = 700000; id = 0; typ = 56; version = 2 };
}
