-- ===== src/Llrp/Client/Answers.antt =====
-- A request and its reply.
use device_rfid_llrp_go.Prelude.{
  ℕ, ◌≤◌, ◌≡◌, ◌≢◌, refl, true, Option, none, some, List, ◌∷◌, arith, if◌then◌else◌, length, ltb,
  take,
}
use device_rfid_llrp_go.Llrp.Header.{Header}
use device_rfid_llrp_go.Llrp.Messages.{Message, Payload, max_buffered_payload_sz}
use device_rfid_llrp_go.Llrp.Client.{
  Client, Handler, Handlers, lookup, delete, dispatch, handle_unread, run_any, run_handler, reply,
  pass_to_handler, with_id, await_reply, handle_request,
}
use device_rfid_llrp_go.Llrp.Client.Maps.{lookup-delete, lookup-delete_other}
use device_rfid_llrp_go.Llrp.Client.Writing.{write_message-awaiting}

run_any-awaiting :
    (h : Option Handler) (c : Client) (hdr : Header)
    → ((run_any h c hdr).awaiting ≡ c.awaiting) × ((run_any h c hdr).delivered ≡ c.delivered)
unfolding run_any run_handler
run_any-awaiting h c hdr = ground arith

handle_unread-awaiting :
    (h : Option Handler) (c : Client) (hdr : Header) (bytes : List ℕ)
    → ((handle_unread h c hdr bytes).0.awaiting ≡ c.awaiting)
      × ((handle_unread h c hdr bytes).0.delivered ≡ c.delivered)
unfolding handle_unread run_handler
handle_unread-awaiting h c hdr bytes = ground arith

-- The message that a sender gets for a payload that arrived in full.
abbrev pub reply_message : Header → List ℕ → Message
reply_message hdr bytes = record {
  payload =
      if ltb max_buffered_payload_sz hdr.payload_len
      then Payload.absent
      else Payload.buffer (take hdr.payload_len bytes);
  header = hdr;
}

dispatch_reply :
    (h : Option Handler) (ch : ℕ) (c : Client) (hdr : Header) (bytes : List ℕ)
    → hdr.payload_len ≤ length bytes
    → ((dispatch h (some ch) c hdr bytes).0.delivered ≡ (ch, reply_message hdr bytes) ∷ c.delivered)
      × ((dispatch h (some ch) c hdr bytes).0.awaiting ≡ c.awaiting)
unfolding dispatch reply
dispatch_reply h ch c hdr bytes le = ground (
  arith,
  λ (d : Client). handle_unread-awaiting h d hdr bytes,
  λ (d : Client). run_any-awaiting h d hdr,
)

receive_reply :
    (hs : Handlers) (d : Client) (ch : ℕ) (hdr : Header) (bytes : List ℕ)
    → lookup hdr.id d.awaiting ≡ some ch
    → hdr.payload_len ≤ length bytes
    → ((pass_to_handler hs d hdr bytes).0.delivered ≡ (ch, reply_message hdr bytes) ∷ d.delivered)
      × ((pass_to_handler hs d hdr bytes).0.awaiting ≡ delete hdr.id d.awaiting)
unfolding pass_to_handler
receive_reply hs d ch hdr bytes e le =
    rw e (dispatch_reply _ ch (record d { awaiting = delete hdr.id d.awaiting }) hdr bytes le)

request_awaiting :
    (c : Client) (m : Message)
    → let id = (with_id c m).1.header.id in
      ((handle_request c m true).0.awaiting ≡ (id, c.next_chan) ∷ delete id c.awaiting)
      × ((handle_request c m true).0.delivered ≡ c.delivered)
unfolding handle_request with_id await_reply
request_awaiting c m = ground (arith, λ (d : Client) (x : Message). write_message-awaiting d x)

lookup-front : (k v : ℕ) (m : List (ℕ × ℕ)) → lookup k ((k, v) ∷ m) ≡ some v
unfolding lookup
lookup-front k v m = ground arith

lookup-twice :
    (j k v : ℕ) (m : List (ℕ × ℕ)) → j ≢ k → lookup j (delete k ((k, v) ∷ delete k m)) ≡ lookup j m
unfolding delete
lookup-twice j k v m h =
    ground (arith, lookup-delete_other j k m h, lookup-delete_other j k (delete k m) h)

-- A request that awaits its reply, and then a message of the same ID that arrives in full: the channel of
-- the request gets that message, with the payload if it is small enough to be buffered; the ID is no longer
-- awaited, and what is awaited under any other ID has not changed.
pub pass_to_handler-handle_request :
    (hs : Handlers) (c : Client) (m : Message) (hdr : Header) (bytes : List ℕ) (j : ℕ)
    → hdr.id ≡ (with_id c m).1.header.id
    → hdr.payload_len ≤ length bytes
    → j ≢ hdr.id
    → let d = (handle_request c m true).0 in
      ((pass_to_handler hs d hdr bytes).0.delivered
        ≡ (c.next_chan, reply_message hdr bytes) ∷ c.delivered)
      × (lookup hdr.id (pass_to_handler hs d hdr bytes).0.awaiting ≡ none)
      × (lookup j (pass_to_handler hs d hdr bytes).0.awaiting ≡ lookup j c.awaiting)
pass_to_handler-handle_request hs c m hdr bytes j e le other =
    let d = (handle_request c m true).0 in
    let (a, l) = request_awaiting c m in
    let id = (with_id c m).1.header.id in
    let found : lookup hdr.id d.awaiting ≡ some c.next_chan =
      rw (a, e) (lookup-front id c.next_chan (delete id c.awaiting)) in
    let (r, s) = receive_reply hs d c.next_chan hdr bytes found le in
    (
      rw (r, l) refl,
      rw s (lookup-delete hdr.id d.awaiting),
      rw (s, a, ← e) (lookup-twice j hdr.id c.next_chan c.awaiting other),
    )
