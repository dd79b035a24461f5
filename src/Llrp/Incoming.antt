-- ===== src/Llrp/Incoming.antt =====
-- `handleIncoming` and `readHeader` of pkg/llrp/reader.go, on a connection that delivers some bytes and then
-- ends. The other goroutines do nothing meanwhile; what they may do is in the steps of Llrp/Client.
pub mod Frames
mod Examples
use device_rfid_llrp_go.Prelude.{
  ℕ, zero, suc, Bool, true, false, ◌||◌, Option, none, some, List, [], ◌∷◌, ltb, ◌==◌,
  if◌then◌else◌, length, take, drop,
}
use device_rfid_llrp_go.Llrp.MessageTypes.{close_connection_response}
use device_rfid_llrp_go.Llrp.Header.{Header, header_sz, unmarshal_binary}
use device_rfid_llrp_go.Llrp.Client.{Client, Handlers, pass_to_handler}

-- `readHeader`: a header and the bytes behind it, io.EOF, or another error.
pub data HeaderRead : Type 0 where
  got : Header → List ℕ → HeaderRead
  at_eof : HeaderRead
  bad_header : HeaderRead

abbrev zero_header : Header
zero_header = record { payload_len = 0; id = 0; typ = 0; version = 0 }

unfoldable pub read_header : List ℕ → HeaderRead
unfolding unmarshal_binary
read_header bytes =
    if length bytes == 0
    then at_eof
    else if ltb (length bytes) header_sz
    then bad_header
    else (let (h, e) = unmarshal_binary zero_header (take header_sz bytes) in
        elim e [ none ↦ got h (drop header_sz bytes) | some _ ↦ bad_header ])

-- What `handleIncoming` returns. `exhausted` is none of Go's, and stands for fuel that ran out.
pub data Stop : Type 0 where
  client_closed : Stop
  no_next_message : Stop
  unexpected_after_close : Stop
  not_processed : Stop
  exhausted : Stop

-- The loop, with `receivedClosed`. At the end of the connection after a `CloseConnectionResponse` it waits
-- for `done`, and then returns ErrClientClosed.
unfoldable pub handle_incoming : Handlers → ℕ → Bool → Client → List ℕ → Client × Stop
unfolding read_header pass_to_handler
handle_incoming hs zero received_closed c bytes = (c, exhausted)
handle_incoming hs (suc fuel) received_closed c bytes = elim (c.is_closed) [
  | true ↦ (c, client_closed)
  | false ↦ elim (read_header bytes) [
    | at_eof ↦ (c, if received_closed then client_closed else no_next_message)
    | bad_header ↦ (c, if received_closed then unexpected_after_close else no_next_message)
    | got hdr rest ↦
        let r = pass_to_handler hs c hdr rest in
        elim (r.2) [
          | true ↦ (r.0, not_processed)
          | false ↦
              handle_incoming hs fuel (received_closed || hdr.typ == close_connection_response) r.0
                r.1
        ]
  ]
]
