-- ===== src/Llrp/Incoming/Frames.antt =====
-- `handleIncoming` takes a stream apart into the messages that were put into it.
use device_rfid_llrp_go.Prelude.{
  ℕ, suc, ◌≤◌, ◌<◌, ◌^◌, ◌≡◌, refl, ap, ap₂, ◌∙◌, Bool, false, ◌||◌, none, List, [], ◌∷◌, ◌++◌,
  arith, ltb, ◌==◌, if◌then◌else◌, length, take, drop, drop-append, length-append, All, IsU32,
}
use device_rfid_llrp_go.Llrp.MessageTypes.{close_connection_response}
use device_rfid_llrp_go.Llrp.Header.{
  Header, header_sz, max_payload_sz, unmarshal_binary, header_bytes,
}
use device_rfid_llrp_go.Llrp.Header.RoundTrip.{unmarshal_binary-header_bytes}
use device_rfid_llrp_go.Llrp.Client.{Client, Handlers, pass_to_handler}
use device_rfid_llrp_go.Llrp.Client.Framing.{
  pass_to_handler_rest, pass_to_handler_whole, pass_to_handler-is_closed,
}
use device_rfid_llrp_go.Llrp.Incoming.{
  got, zero_header, read_header, client_closed, no_next_message, handle_incoming,
}

-- A header that fits its fields, with a payload of the length that it gives.
abbrev pub IsFrame : Header × List ℕ → Type 0
IsFrame (h, p) =
    (h.version < 8)
    × (h.typ < 2 ^ 10)
    × (h.payload_len ≤ max_payload_sz)
    × IsU32 h.id
    × (h.payload_len ≡ length p)

-- The bytes of messages one after another.
unfoldable pub frames : List (Header × List ℕ) → List ℕ
frames [] = []
frames ((h, p) ∷ ms) = header_bytes h ++ (p ++ frames ms)

header_cut :
    (h : Header) (rest : List ℕ)
    → (take header_sz (header_bytes h ++ rest) ≡ header_bytes h ++ [])
      × (drop header_sz (header_bytes h ++ rest) ≡ rest)
      × ((length (header_bytes h ++ rest) == 0) ≡ false)
      × (ltb (length (header_bytes h ++ rest)) header_sz ≡ false)
unfolding header_bytes
header_cut h rest = (refl, refl, ground arith, ground arith)

read_header_of :
    (bytes front back : List ℕ) (h : Header)
    → (length bytes == 0) ≡ false
    → ltb (length bytes) header_sz ≡ false
    → take header_sz bytes ≡ front
    → drop header_sz bytes ≡ back
    → unmarshal_binary zero_header front ≡ (h, none)
    → read_header bytes ≡ got h back
unfolding read_header
read_header_of bytes front back h e1 e2 e3 e4 e5 = ground arith

read_header-header_bytes :
    (h : Header) (rest : List ℕ)
    → h.version < 8
    → h.typ < 2 ^ 10
    → h.payload_len ≤ max_payload_sz
    → IsU32 h.id
    → read_header (header_bytes h ++ rest) ≡ got h rest
read_header-header_bytes h rest v t n i =
    let (front, back, some_there, enough) = header_cut h rest in
    read_header_of _ (header_bytes h ++ []) rest h some_there enough front back
      (unmarshal_binary-header_bytes h zero_header [] v t n i)

-- The client after the messages, each passed on with its own payload.
unfoldable pub pass_all : Handlers → Client → List (Header × List ℕ) → Client
pass_all hs c [] = c
pass_all hs c ((h, p) ∷ ms) = pass_all hs (pass_to_handler hs c h p).0 ms

abbrev pub closes : Bool → List (Header × List ℕ) → Bool
closes b [] = b
closes b ((h, p) ∷ ms) = closes (b || h.typ == close_connection_response) ms

-- One round of the loop that finds a message.
round_of :
    (hs : Handlers) (fuel : ℕ) (b : Bool) (c : Client) (bytes rest : List ℕ) (h : Header)
    → c.is_closed ≡ false
    → read_header bytes ≡ got h rest
    → (pass_to_handler hs c h rest).2 ≡ false
    → handle_incoming hs (suc fuel) b c bytes
      ≡ handle_incoming hs fuel
          (b || h.typ == close_connection_response)
          (pass_to_handler hs c h rest).0
          (pass_to_handler hs c h rest).1
unfolding handle_incoming
round_of hs fuel b c bytes rest h e1 e2 e3 = ground arith

-- And one that finds the end.
last_round :
    (hs : Handlers) (fuel : ℕ) (b : Bool) (c : Client)
    → c.is_closed ≡ false
    → handle_incoming hs (suc fuel) b c [] ≡ (c, if b then client_closed else no_next_message)
unfolding handle_incoming read_header
last_round hs fuel b c e = ground arith

one_round :
    (hs : Handlers) (fuel : ℕ) (b : Bool) (c : Client) (h : Header) (p rest : List ℕ)
    → IsFrame (h, p)
    → c.is_closed ≡ false
    → handle_incoming hs (suc fuel) b c (header_bytes h ++ (p ++ rest))
      ≡ handle_incoming hs fuel
          (b || h.typ == close_connection_response)
          (pass_to_handler hs c h p).0
          rest
one_round hs fuel b c h p rest (v, t, n, i, e) open_ =
    let (left, good) =
      pass_to_handler_rest hs c h (p ++ rest) (omega (arith, length-append p rest)) in
    let behind : drop h.payload_len (p ++ rest) ≡ rest =
      ap (λ (k : ℕ). drop k (p ++ rest)) e ∙ drop-append p rest in
    round_of hs fuel b c _ (p ++ rest) h open_ (read_header-header_bytes h (p ++ rest) v t n i) good
    ∙ ap₂ (λ d bytes. handle_incoming hs fuel (b || h.typ == close_connection_response) d bytes)
        (pass_to_handler_whole hs c h p rest e) (left ∙ behind)

loop_frames :
    (hs : Handlers) (ms : List (Header × List ℕ)) (b : Bool) (c : Client)
    → All IsFrame ms
    → c.is_closed ≡ false
    → handle_incoming hs (suc (length ms)) b c (frames ms)
      ≡ (pass_all hs c ms, if closes b ms then client_closed else no_next_message)
unfolding frames pass_all
loop_frames hs [] b c v open_ = last_round hs 0 b c open_
loop_frames hs ((h, p) ∷ ms) b c (f, v) open_ =
    one_round hs (suc (length ms)) b c h p (frames ms) f open_
    ∙ loop_frames hs ms (b || h.typ == close_connection_response) (pass_to_handler hs c h p).0 v
        (pass_to_handler-is_closed hs c h p ∙ open_)

-- On a stream of whole messages whose headers fit their fields, to a client that is not closed,
-- `handleIncoming` passes on each message in order, with exactly its own payload, and then ends: with
-- ErrClientClosed if a `CloseConnectionResponse` was among them, else for want of a next message. The fuel
-- of one round for each message and one more is enough.
pub handle_incoming-frames :
    (hs : Handlers) (c : Client) (ms : List (Header × List ℕ))
    → All IsFrame ms
    → c.is_closed ≡ false
    → handle_incoming hs (suc (length ms)) false c (frames ms)
      ≡ (pass_all hs c ms, if closes false ms then client_closed else no_next_message)
handle_incoming-frames hs c ms v open_ = loop_frames hs ms false c v open_
