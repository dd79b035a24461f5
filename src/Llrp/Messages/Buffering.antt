-- ===== src/Llrp/Messages/Buffering.antt =====
-- `Message.data` and `Message.Close`.
use device_rfid_llrp_go.Prelude.{ℕ, ◌≤◌, ◌≡◌, refl, List, arith, length, length-take, ok}
use device_rfid_llrp_go.Llrp.Messages.{
  Payload, absent, buffer, stream, Message, payload_data, payload_bytes, buffer_payload, read_full,
  max_buffered_payload_sz,
}

payload_bytes_again :
    (p : Payload) (m m' : Message) (bytes : List ℕ)
    → m.payload ≡ p
    → payload_bytes p m ≡ (ok bytes, m')
    → payload_bytes m'.payload m' ≡ (ok bytes, m')
unfolding payload_bytes buffer_payload read_full
payload_bytes_again absent m m' bytes q e = ground arith
payload_bytes_again (buffer b) m m' bytes q e = ground arith
payload_bytes_again (stream b) m m' bytes q e = ground arith

-- The payload is buffered by the first read.
pub payload_data_idem :
    (m m' : Message) (bytes : List ℕ)
    → payload_data m ≡ (ok bytes, m')
    → payload_data m' ≡ (ok bytes, m')
unfolding payload_data
payload_data_idem m m' bytes e = payload_bytes_again m.payload m m' bytes refl e

payload_bytes-length :
    (p : Payload) (m m' : Message) (bytes unread : List ℕ)
    → p ≡ stream unread
    → payload_bytes p m ≡ (ok bytes, m')
    → (length bytes ≡ m.header.payload_len)
      × (m'.header ≡ m.header)
      × (m.header.payload_len ≤ max_buffered_payload_sz)
unfolding payload_bytes buffer_payload read_full
payload_bytes-length absent m m' bytes unread q e = cc
payload_bytes-length (buffer b) m m' bytes unread q e = cc
payload_bytes-length (stream b) m m' bytes unread q e =
    ground (arith, length-take m.header.payload_len b)

-- If `Message.data` succeeds on a payload that was still to be read, the data has the length that the header
-- gives, which is within the limit, and the header is unchanged.
pub payload_data-length :
    (m m' : Message) (bytes unread : List ℕ)
    → m.payload ≡ stream unread
    → payload_data m ≡ (ok bytes, m')
    → (length bytes ≡ m.header.payload_len)
      × (m'.header ≡ m.header)
      × (m.header.payload_len ≤ max_buffered_payload_sz)
unfolding payload_data
payload_data-length m m' bytes unread q e = payload_bytes-length m.payload m m' bytes unread q e
