-- ===== src/Llrp/Client/Examples.antt =====
-- The theorems on `Client` at a client with one request in flight.
use device_rfid_llrp_go.Prelude.{
  ℕ, ◌+◌, ◌≤◌, ◌≡◌, ◌↔◌, refl, true, false, none, some, List, [], ◌∷◌, arith, ◌==◌, if◌then◌else◌,
  Bool,
}
use device_rfid_llrp_go.Llrp.Header.{Header}
use device_rfid_llrp_go.Llrp.Messages.{Message, Payload}
use device_rfid_llrp_go.Llrp.Client.{
  Client, Handlers, Handler, ack_handler, new_client, with_id, lookup, handle_request, handle_ack,
  handler_for, pass_to_handler,
}
use device_rfid_llrp_go.Llrp.Client.Maps.{count, awaits}
use device_rfid_llrp_go.Llrp.Client.Channels.{start, step, Step, replies_on, Run-channels}
use device_rfid_llrp_go.Llrp.Client.Framing.{pass_to_handler_rest, pass_to_handler_short}
use device_rfid_llrp_go.Llrp.Client.Answers.{reply_message, pass_to_handler-handle_request}
use device_rfid_llrp_go.Llrp.Client.Writing.{handle_ack-pass_to_handler}

-- KeepAlive is acknowledged, and reports go to a handler that reads one byte of each.
abbrev handlers : Handlers
handlers = record {
  by_type = λ t. if t == 62 then some ack_handler else none;
  default_handler = some (Handler.user_handler (λ hdr bytes. 1));
}

abbrev question : Message
question = record {
  payload = Payload.absent;
  header = record { payload_len = 0; id = 0; typ = 26; version = 0 };
}

abbrev answer : Header
answer = record { payload_len = 2; id = 0; typ = 36; version = 2 }

abbrev on_wire : List ℕ
on_wire = 5 ∷ 6 ∷ 7 ∷ []

abbrev asked : Client
asked = (handle_request (new_client 2) question true).0

Run-channels_example :
    let c = (pass_to_handler handlers asked answer on_wire).0 in
    (replies_on 0 c.delivered ≤ count 0 c.closed) × (count 0 c.closed + awaits 0 c.awaiting ≤ 1)
Run-channels_example = Run-channels handlers 2 (pass_to_handler handlers asked answer on_wire).0 0 (
    step asked _ (step (new_client 2) asked start (Step.request (new_client 2) question true))
      (Step.receive asked answer on_wire))

pass_to_handler_rest_example :
    ((pass_to_handler handlers asked answer on_wire).1 ≡ 7 ∷ [])
    × ((pass_to_handler handlers asked answer on_wire).2 ≡ false)
pass_to_handler_rest_example = pass_to_handler_rest handlers asked answer on_wire (omega arith)

pass_to_handler_short_example :
    ((pass_to_handler handlers asked answer (5 ∷ [])).1 ≡ [])
    × (((pass_to_handler handlers asked answer (5 ∷ [])).2 ≡ true)
        ↔ ((handler_for handlers 36 ≡ none) × (lookup 0 asked.awaiting ≡ none)))
pass_to_handler_short_example = pass_to_handler_short handlers asked answer (5 ∷ []) (omega arith)

pass_to_handler-handle_request_example :
    ((pass_to_handler handlers asked answer on_wire).0.delivered
      ≡ (0, reply_message answer on_wire) ∷ [])
    × (lookup 0 (pass_to_handler handlers asked answer on_wire).0.awaiting ≡ none)
    × (lookup 4 (pass_to_handler handlers asked answer on_wire).0.awaiting ≡ lookup 4 [])
pass_to_handler-handle_request_example =
    unfold new_client in
    pass_to_handler-handle_request handlers (new_client 2) question answer on_wire 4
      (unfold with_id in refl) (omega arith) (omega arith)

-- Three requests, the second of which closes the connection: the third is not sent.
abbrev farewell : Message
farewell = record {
  payload = Payload.absent;
  header = record { payload_len = 0; id = 0; typ = 14; version = 0 };
}

abbrev queued : List (Message × Bool)
queued = (question, true) ∷ (farewell, true) ∷ (question, false) ∷ []

abbrev keep_alive_head : Header
keep_alive_head = record { payload_len = 0; id = 77; typ = 62; version = 2 }

handle_ack-pass_to_handler_example :
    let d = (pass_to_handler handlers (new_client 2) keep_alive_head []).0 in
    (handle_ack d d.ack_queue).0.sent
    ≡ (record { payload_len = 0; id = 77; typ = 72; version = 2 }, []) ∷ []
handle_ack-pass_to_handler_example =
    unfold new_client in
    handle_ack-pass_to_handler handlers (new_client 2) keep_alive_head [] refl refl refl
      (omega arith)
