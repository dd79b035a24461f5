-- ===== src/Llrp/Header.antt =====
-- The message header of pkg/llrp/messages.go: ten bytes with version, type, length and message ID.
-- An error value keeps the numbers that its text reports.
pub mod RoundTrip
pub mod Bounds
use device_rfid_llrp_go.Prelude.{
  ℕ, ◌+◌, ◌-◌, ◌*◌, ◌/◌, ◌%◌, ◌^◌, Bool, ◌&&◌, Option, none, some, List, [], ◌∷◌, ◌++◌, leb, ltb,
  if◌then◌else◌, length, get_or, Outcome, ok, err, bit_or,
}
use device_rfid_llrp_go.Llrp.Bytes.{be16, be32}
use device_rfid_llrp_go.Llrp.MessageTypes.{max_msg_type, msg_resv_start, msg_resv_end}

-- `HeaderSz`
abbrev pub header_sz : ℕ
header_sz = 10

-- `maxPayloadSz`
abbrev pub max_payload_sz : ℕ
max_payload_sz = 2 ^ 32 - 1 - header_sz

pub data MsgError : Type 0 where
  too_short : ℕ → MsgError
  below_minimum : ℕ → MsgError
  type_too_big : ℕ → MsgError
  type_reserved : ℕ → MsgError
  payload_too_big : ℕ → MsgError

-- `Header`: a uint32, a uint32, a uint16 and a uint8.
pub record Header : Type 0 where
  pub payload_len : ℕ
  pub id : ℕ
  pub typ : ℕ
  pub version : ℕ

-- The three reads of the fields from `buf`, which is long enough.
unfoldable pub read_fields : List ℕ → Header
read_fields buf = record {
  version = get_or buf 0 0 / 2 ^ 2 % 2 ^ 3;
  typ = (get_or buf 0 0 * 2 ^ 8 + get_or buf 1 0) % 2 ^ 10;
  payload_len =
      get_or buf 2 0 * 2 ^ 24 + get_or buf 3 0 * 2 ^ 16 + get_or buf 4 0 * 2 ^ 8 + get_or buf 5 0;
  id = get_or buf 6 0 * 2 ^ 24 + get_or buf 7 0 * 2 ^ 16 + get_or buf 8 0 * 2 ^ 8 + get_or buf 9 0;
}

-- `UnmarshalBinary` writes through its receiver before the second check, so an error can come with a
-- changed header.
unfoldable pub unmarshal_binary : Header → List ℕ → Header × Option MsgError
unmarshal_binary h buf =
    if ltb (length buf) header_sz
    then (h, some (MsgError.too_short (length buf)))
    else let h' = read_fields buf in
      if ltb h'.payload_len header_sz
      then (h', some (MsgError.below_minimum h'.payload_len))
      else (record h' { payload_len = h'.payload_len - header_sz }, none)

-- `validateHeader`
unfoldable pub validate_header : ℕ → ℕ → Option MsgError
validate_header payload_len typ =
    if ltb max_msg_type typ
    then some (MsgError.type_too_big typ)
    else if leb msg_resv_start typ && leb typ msg_resv_end
    then some (MsgError.type_reserved typ)
    else if ltb max_payload_sz payload_len
    then some (MsgError.payload_too_big payload_len)
    else none

-- The ten bytes that `MarshalBinary`, `WriteTo` and `Client.writeHeader` put together. The sums and the
-- shift are those of uint32 and uint16.
unfoldable pub header_bytes : Header → List ℕ
header_bytes h =
    be16 (bit_or (h.version * 2 ^ 10 % 2 ^ 16) h.typ)
    ++ be32 ((h.payload_len + header_sz) % 2 ^ 32)
    ++ be32 h.id

-- `MarshalBinary`
unfoldable pub marshal_binary : Header → Outcome MsgError (List ℕ)
unfolding header_bytes validate_header
marshal_binary h = elim (validate_header h.payload_len h.typ) [
  | some e ↦ err e
  | none ↦ ok (header_bytes h)
]
