-- ===== src/Llrp/Client.antt =====
-- `Client` of pkg/llrp/reader.go: the steps of its two coordinators. `handleOutgoing` takes an
-- acknowledgement or a request and writes it; `handleIncoming` hands each message that it reads to
-- `passToHandler`. A reply channel is a number, given out in order; its messages and its closings are kept as
-- logs. The connection is the bytes that it still delivers, and the log of what was written.
pub mod Maps
pub mod Channels
pub mod Framing
pub mod Writing
pub mod Answers
mod Examples
use device_rfid_llrp_go.Prelude.{
  ℕ, zero, suc, ◌+◌, ◌-◌, ◌%◌, ◌^◌, min, Bool, true, false, ◌||◌, Option, none, some, List, [], ◌∷◌,
  ◌++◌, leb, ltb, ◌==◌, if◌then◌else◌, length, take, drop,
}
use device_rfid_llrp_go.Llrp.MessageTypes.{
  keep_alive_ack, get_supported_version, set_protocol_version, close_connection,
}
use device_rfid_llrp_go.Llrp.Header.{Header}
use device_rfid_llrp_go.Llrp.Messages.{
  Payload, absent, buffer, stream, Message, version1_1, max_buffered_payload_sz,
}

-- A Go map from message IDs to reply channels.
unfoldable pub lookup : ℕ → List (ℕ × ℕ) → Option ℕ
lookup k [] = none
lookup k ((j, v) ∷ m) = if j == k then some v else lookup k m

unfoldable pub delete : ℕ → List (ℕ × ℕ) → List (ℕ × ℕ)
delete k [] = []
delete k ((j, v) ∷ m) = let rest = delete k m in if j == k then rest else (j, v) ∷ rest

pub record Client : Type 0 where
  pub version : ℕ
  -- `nextMsgID`, a uint32
  pub next_msg_id : ℕ
  pub awaiting : List (ℕ × ℕ)
  -- the number of the next reply channel
  pub next_chan : ℕ
  pub delivered : List (ℕ × Message)
  pub closed : List ℕ
  pub ack_queue : List ℕ
  pub sent : List (Header × List ℕ)
  -- `isClosed`
  pub is_closed : Bool

-- `NewClient`, with the version that `WithVersion` may have set.
unfoldable pub new_client : ℕ → Client
new_client version = record {
  version = version;
  next_msg_id = 0;
  awaiting = [];
  next_chan = 0;
  delivered = [];
  closed = [];
  ack_queue = [];
  sent = [];
  is_closed = false;
}

-- What `handleOutgoing` does after one message: it goes on, it waits for `done`, or it returns an error.
pub data Writer : Type 0 where
  writes_on : Writer
  waits_for_done : Writer
  no_payload : Writer

-- `ackQueueSz`
abbrev pub ack_queue_sz : ℕ
ack_queue_sz = 5

-- The version in an outgoing header.
unfoldable pub outgoing_version : ℕ → Header → ℕ
outgoing_version version h =
    if h.typ == get_supported_version || h.typ == set_protocol_version
    then version1_1
    else if h.version == 0
    then version
    else h.version

payload_written : Client → Header → Payload → Client × Writer
payload_written c h Payload.absent = (record c { sent = c.sent ++ (h, []) ∷ [] }, Writer.no_payload)
payload_written c h (Payload.buffer bytes) =
    (record c { sent = c.sent ++ (h, bytes) ∷ [] }, Writer.writes_on)
payload_written c h (Payload.stream bytes) =
    (record c { sent = c.sent ++ (h, bytes) ∷ [] }, Writer.writes_on)

-- The part of `handleOutgoing` behind the choice of a message, with writes that succeed.
unfoldable pub write_message : Client → Message → Client × Writer
unfolding outgoing_version payload_written
write_message c m =
    let h = record (m.header) { version = outgoing_version c.version m.header } in
    if h.typ == close_connection
    then (record c { sent = c.sent ++ (h, []) ∷ [] }, Writer.waits_for_done)
    else if h.payload_len == 0
    then (record c { sent = c.sent ++ (h, []) ∷ [] }, Writer.writes_on)
    else payload_written c h m.payload

-- The ID that a request gets, and the counter after it.
unfoldable pub with_id : Client → Message → Client × Message
with_id c m =
    if m.header.id == 0
    then (
      record c { next_msg_id = (c.next_msg_id + 1) % 2 ^ 32 },
      record m { header = record (m.header) { id = c.next_msg_id } },
    )
    else (c, m)

-- `c.awaiting[msg.id] = replyChan`, with the new channel.
unfoldable pub await_reply : Client → ℕ → Client
unfolding delete
await_reply c id = record c {
  awaiting = (id, c.next_chan) ∷ delete id c.awaiting;
  next_chan = c.next_chan + 1;
}

-- `handleOutgoing` on a request; `wants_reply` is that its `tokenChan` is not nil.
unfoldable pub handle_request : Client → Message → Bool → Client × Writer
unfolding with_id await_reply write_message
handle_request c m wants_reply =
    let (c1, m1) = with_id c m in
    let c2 = if wants_reply then await_reply c1 m1.header.id else c1 in write_message c2 m1

-- What the loop of `handleOutgoing` does behind a message, if it goes on at all.
unfoldable pub and_then : Client × Writer → (Client → Client × Writer) → Client × Writer
and_then (c, writes_on) next = next c
and_then (c, waits_for_done) next = (c, Writer.waits_for_done)
and_then (c, no_payload) next = (c, Writer.no_payload)

-- The loop of `handleOutgoing` on requests that are queued, each with whether it wants a reply, while no
-- acknowledgement is.
unfoldable pub handle_requests : Client → List (Message × Bool) → Client × Writer
unfolding and_then handle_request
handle_requests c [] = (c, Writer.writes_on)
handle_requests c ((m, wants_reply) ∷ rest) =
    and_then (handle_request c m wants_reply) (λ c1. handle_requests c1 rest)

ack_message : ℕ → Message
ack_message mid = record {
  payload = Payload.absent;
  header = record { payload_len = 0; id = mid; typ = keep_alive_ack; version = 0 };
}

-- `handleOutgoing` on the oldest acknowledgement; with none it takes no step.
unfoldable pub handle_ack : Client → List ℕ → Client × Writer
unfolding ack_message write_message
handle_ack c [] = (c, Writer.writes_on)
handle_ack c (mid ∷ rest) = write_message (record c { ack_queue = rest }) (ack_message mid)

-- `sendToken.cancel`
unfoldable pub cancel : Client → ℕ → Client
unfolding lookup delete
cancel c mid = elim (lookup mid c.awaiting) [
  | none ↦ c
  | some ch ↦ record c { closed = ch ∷ c.closed; awaiting = delete mid c.awaiting }
]

-- `Client.Close`: whether it closed `done`, for ErrClientClosed otherwise.
unfoldable pub close_client : Client → Client × Bool
close_client c = if c.is_closed then (c, false) else (record c { is_closed = true }, true)

-- A `MessageHandler`: the one for KeepAlive, or another, of which only the number of bytes that it reads
-- off the payload matters here.
pub data Handler : Type 0 where
  ack_handler : Handler
  user_handler : (Header → List ℕ → ℕ) → Handler

pub record Handlers : Type 0 where
  pub by_type : ℕ → Option Handler
  pub default_handler : Option Handler

unfoldable pub handler_for : Handlers → ℕ → Option Handler
handler_for hs typ = elim (hs.by_type typ) [ none ↦ hs.default_handler | some h ↦ some h ]

-- `ackHandler.HandleMessage` under `handleGuarded`: a full queue makes it panic, which is caught.
unfoldable pub run_handler : Handler → Client → Header → Client
run_handler ack_handler c hdr =
    if ltb (length c.ack_queue) ack_queue_sz
    then record c { ack_queue = c.ack_queue ++ hdr.id ∷ [] }
    else c
run_handler (user_handler _) c hdr = c

bytes_read : Handler → Header → List ℕ → ℕ
bytes_read ack_handler hdr bytes = 0
bytes_read (user_handler f) hdr bytes = f hdr bytes

-- A handler reads some of the `LimitedReader`, and the deferred copy drains the rest of it.
unfoldable pub read_and_drain : Handler → Header → List ℕ → List ℕ
unfolding bytes_read
read_and_drain h hdr bytes =
    let n = min (bytes_read h hdr bytes) hdr.payload_len in
    drop (hdr.payload_len - n) (drop n bytes)

-- The handlers' part of `passToHandler`, on a payload that is still on the connection.
unfoldable pub handle_unread : Option Handler → Client → Header → List ℕ → Client × List ℕ
unfolding run_handler read_and_drain
handle_unread none c hdr bytes = (c, drop hdr.payload_len bytes)
handle_unread (some h) c hdr bytes = (run_handler h c hdr, read_and_drain h hdr bytes)

run_any : Option Handler → Client → Header → Client
unfolding run_handler
run_any none c hdr = c
run_any (some h) c hdr = run_handler h c hdr

-- `replyChan <- m; close(replyChan)`
unfoldable pub reply : Client → ℕ → Message → Client
reply c ch m = record c { delivered = (ch, m) ∷ c.delivered; closed = ch ∷ c.closed }

-- `passToHandler`, once it is known who awaits the message: the client, the bytes that stay on the
-- connection, and whether it returns an error. The deferred copy overwrites the error of a short read of an
-- awaited payload.
unfoldable pub dispatch :
    Option Handler → Option ℕ → Client → Header → List ℕ → Client × List ℕ × Bool
unfolding handle_unread run_any reply
dispatch none none c hdr bytes = (c, drop hdr.payload_len bytes, ltb (length bytes) hdr.payload_len)
dispatch (some h) none c hdr bytes =
    let (c1, rest) = handle_unread (some h) c hdr bytes in (c1, rest, false)
dispatch handler (some ch) c hdr bytes =
    if ltb max_buffered_payload_sz hdr.payload_len
    then (let (c1, rest) =
          handle_unread handler (reply c ch (record { payload = Payload.absent; header = hdr })) hdr
            bytes in
        (c1, rest, false))
    else if leb hdr.payload_len (length bytes)
    then (
      run_any handler
          (reply c ch
            (record { payload = Payload.buffer (take hdr.payload_len bytes); header = hdr }))
          hdr,
      drop hdr.payload_len bytes,
      false,
    )
    else (c, [], false)

-- `passToHandler`
unfoldable pub pass_to_handler : Handlers → Client → Header → List ℕ → Client × List ℕ × Bool
unfolding lookup delete handler_for dispatch
pass_to_handler hs c hdr bytes =
    dispatch (handler_for hs hdr.typ) (lookup hdr.id c.awaiting)
      (record c { awaiting = delete hdr.id c.awaiting }) hdr bytes
