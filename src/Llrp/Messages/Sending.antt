-- ===== src/Llrp/Messages/Sending.antt =====
-- The constructors of outgoing messages, and the match of a response with its request.
use device_rfid_llrp_go.Prelude.{
  ℕ, ◌≤◌, ◌≡◌, refl, none, List, [], ◌∷◌, arith, length, take, ok, panic, ◌≢◌, ◌↔◌,
}
use device_rfid_llrp_go.Llrp.MessageTypes.Mirror.{converse_involutive}
use device_rfid_llrp_go.Llrp.Header.{validate_header, max_payload_sz}
use device_rfid_llrp_go.Llrp.Messages.{
  Payload, Message, payload_data, payload_bytes, buffer_payload, read_full, new_byte_message,
  message_of, new_message, is_response_to, max_buffered_payload_sz,
}

-- `NewByteMessage` panics exactly where the type is not valid for a header and the payload is not above the
-- largest, in which case it returns an error instead.
pub new_byte_message_panics :
    (t : ℕ) (p : List ℕ)
    → (new_byte_message t p ≡ panic) ↔ ((validate_header 0 t ≢ none) × (length p ≤ max_payload_sz))
unfolding new_byte_message new_message message_of validate_header
new_byte_message_panics t [] = ground arith
new_byte_message_panics t (x ∷ xs) = ground arith

pub new_byte_message-is_sendable :
    (t : ℕ) (p : List ℕ) (m : Message)
    → new_byte_message t p ≡ ok m
    → (m.header.payload_len ≡ length p)
      × (m.header.typ ≡ t)
      × (m.header.id ≡ 0)
      × (validate_header m.header.payload_len m.header.typ ≡ none)
unfolding new_byte_message new_message message_of validate_header
new_byte_message-is_sendable t [] m e = ground arith
new_byte_message-is_sendable t (x ∷ xs) m e = ground arith

take-length : (xs : List ℕ) → take (length xs) xs ≡ xs
take-length [] = refl
take-length (x ∷ xs) = ground (arith, take-length xs)

-- The data of a message that `NewByteMessage` made of some bytes is those bytes, if they are within the
-- limit for buffering.
pub payload_data-new_byte_message :
    (t : ℕ) (p : List ℕ) (m : Message)
    → new_byte_message t p ≡ ok m
    → length p ≤ max_buffered_payload_sz
    → (payload_data m).0 ≡ ok p
unfolding new_byte_message new_message message_of payload_data payload_bytes buffer_payload
    read_full
payload_data-new_byte_message t [] m e h = ground arith
payload_data-new_byte_message t (x ∷ xs) m e h = ground (arith, take-length xs)

-- A response to a request would be answered by that request's type.
pub is_response_to_sym :
    (m r : Message) (t : ℕ)
    → is_response_to m t ≡ none
    → r.header.typ ≡ t
    → is_response_to r m.header.typ ≡ none
unfolding is_response_to
is_response_to_sym m r t e q = ground (arith, converse_involutive t m.header.typ)

-- The message with one byte of payload.
pub new_byte_message-one :
    (t b : ℕ)
    → validate_header 1 t ≡ none
    → new_byte_message t (b ∷ [])
      ≡ ok (record {
        payload = Payload.stream (b ∷ []);
        header = record { payload_len = 1; id = 0; typ = t; version = 1 };
      })
unfolding new_byte_message new_message message_of
new_byte_message-one t b h = ground arith
