-- ===== src/Llrp/Client/Writing.antt =====
-- What is written: the IDs of requests, and acknowledgements.
use device_rfid_llrp_go.Prelude.{
  ℕ, zero, suc, ◌+◌, ◌%◌, ◌^◌, ◌≤◌, ◌≡◌, refl, ◌∙◌, Bool, true, false, not, ◌&&◌, Option, none,
  some, List, [], ◌∷◌, ◌++◌, arith, ◌==◌, if◌then◌else◌, ◌||◌, length,
}
use device_rfid_llrp_go.Llrp.MessageTypes.{keep_alive, keep_alive_ack}
use device_rfid_llrp_go.Llrp.Header.{Header}
use device_rfid_llrp_go.Llrp.Messages.{Message, Payload}
use device_rfid_llrp_go.Llrp.Client.{
  Client, Handlers, ack_handler, lookup, delete, handler_for, dispatch, handle_unread, run_any,
  run_handler, reply, pass_to_handler, outgoing_version, payload_written, write_message, handle_ack,
  ack_message,
}

pub write_message-awaiting :
    (c : Client) (m : Message)
    → ((write_message c m).0.awaiting ≡ c.awaiting)
      × ((write_message c m).0.delivered ≡ c.delivered)
      × ((write_message c m).0.next_msg_id ≡ c.next_msg_id)
unfolding write_message payload_written
write_message-awaiting c m = ground arith

-- `n`, `n + 1` and so on, `k` of them, as uint32s.
abbrev pub ids_from : ℕ → ℕ → List ℕ
ids_from n zero = []
ids_from n (suc k) = n ∷ ids_from ((n + 1) % 2 ^ 32) k

unfoldable pub sent_ids : List (Header × List ℕ) → List ℕ
sent_ids [] = []
sent_ids ((h, bytes) ∷ log) = h.id ∷ sent_ids log

payload_bytes : Payload → List ℕ
payload_bytes Payload.absent = []
payload_bytes (Payload.buffer bytes) = bytes
payload_bytes (Payload.stream bytes) = bytes

-- The payload that goes out behind a header: none for `CloseConnection`, nor where the length is 0.
unfoldable pub written : Message → List ℕ
unfolding payload_bytes
written m = if m.header.typ == 14 || m.header.payload_len == 0 then [] else payload_bytes m.payload

write_message-sent :
    (c : Client) (m : Message)
    → (write_message c m).0.sent
      ≡ c.sent
        ++ (record (m.header) { version = outgoing_version c.version m.header }, written m) ∷ []
unfolding write_message payload_written written
write_message-sent c m = ground arith

-- `CloseConnection`, or a length without a payload.
unfoldable pub stops : Message → Bool
stops m =
    m.header.typ == 14
    || (not (m.header.payload_len == 0) && elim m.payload [
      | Payload.absent ↦ true
      | Payload.buffer bytes ↦ false
      | Payload.stream bytes ↦ false
    ])

-- How many of the requests the loop comes to: up to the first that stops it, this one included.
unfoldable pub served : List (Message × Bool) → ℕ
served [] = 0
served ((m, w) ∷ rest) = if stops m then 1 else suc (served rest)

dispatch_ack :
    (o : Option ℕ) (c : Client) (hdr : Header) (bytes : List ℕ)
    → c.ack_queue ≡ []
    → hdr.payload_len ≤ length bytes
    → let d = (dispatch (some ack_handler) o c hdr bytes).0 in
      (d.ack_queue ≡ hdr.id ∷ []) × (d.sent ≡ c.sent) × (d.version ≡ c.version)
unfolding dispatch handle_unread run_any run_handler reply
dispatch_ack none c hdr bytes q le = ground arith
dispatch_ack (some ch) c hdr bytes q le = ground arith

handle_ack-sent :
    (d : Client) (id : ℕ)
    → (handle_ack d (id ∷ [])).0.sent
      ≡ d.sent
        ++ (record { payload_len = 0; id = id; typ = keep_alive_ack; version = d.version }, []) ∷ []
unfolding handle_ack
handle_ack-sent d id =
    unfold written outgoing_version ack_message in
    write_message-sent (record d { ack_queue = [] }) (ack_message id)

-- A KeepAlive that arrives in full, with the acknowledgements' queue empty and the client's own handler for
-- its type, is answered by the next acknowledgement: a header of type KeepAliveAck with its ID, the client's
-- version and no payload.
pub handle_ack-pass_to_handler :
    (hs : Handlers) (c : Client) (hdr : Header) (bytes : List ℕ)
    → hs.by_type keep_alive ≡ some ack_handler
    → hdr.typ ≡ keep_alive
    → c.ack_queue ≡ []
    → hdr.payload_len ≤ length bytes
    → let d = (pass_to_handler hs c hdr bytes).0 in
      (handle_ack d d.ack_queue).0.sent
      ≡ c.sent
        ++ (record { payload_len = 0; id = hdr.id; typ = keep_alive_ack; version = c.version }, [])
          ∷ []
unfolding pass_to_handler handler_for
handle_ack-pass_to_handler hs c hdr bytes h t q le =
    let c1 = record c { awaiting = delete hdr.id c.awaiting } in
    let o = lookup hdr.id c.awaiting in
    let (queue, log, version) = dispatch_ack o c1 hdr bytes q le in
    let found : handler_for hs hdr.typ ≡ some ack_handler = ground arith in
    rw (found, queue)
      (handle_ack-sent (dispatch (some ack_handler) o c1 hdr bytes).0 hdr.id
        ∙ rw (log, version) refl)
