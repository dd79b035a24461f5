-- ===== src/Llrp/Codec/Triggers.antt =====
-- Triggers by time and by port: generated code of pkg/llrp.
use device_rfid_llrp_go.Prelude.{
  ℕ, ◌/◌, ◌^◌, Bool, true, false, not, Option, none, List, [], ◌∷◌, ◌++◌, ◌==◌, length, Outcome, ok,
  ◌>>=◌, ◌>>◌,
}
use device_rfid_llrp_go.Llrp.Bytes.{be16, be32, uint64, slice_from}
use device_rfid_llrp_go.Llrp.Params.{
  ParamHeader, ParamHeaders, header, nil, CodecError, has_enough_bytes,
}
use device_rfid_llrp_go.Llrp.Fields.{
  byte_at, uint16_at, uint32_at, finished, unless_empty, beyond, optional, b2b, ◌+++◌, maybe,
  add_sizes,
}
use device_rfid_llrp_go.Llrp.ParamTypes.{
  param_gpi_trigger_value, param_periodic_trigger_value, param_utc_timestamp,
}
use device_rfid_llrp_go.Llrp.Codec.Scalars.{utc_timestamp_header}

pub record GpiTriggerValue : Type 0 where
  pub port : ℕ
  pub event : Bool
  pub timeout : ℕ

-- `GPITriggerValue.getHeader` and `EncodeFields`
unfoldable pub gpi_trigger_value_header : GpiTriggerValue → ParamHeader
gpi_trigger_value_header p =
    header param_gpi_trigger_value 11 (be16 p.port ++ (b2b p.event 7 ∷ []) ++ be32 p.timeout) nil

-- `GPITriggerValue.UnmarshalBinary`
unfoldable pub unmarshal_gpi_trigger_value : List ℕ → Outcome CodecError GpiTriggerValue
unmarshal_gpi_trigger_value bytes = do
  has_enough_bytes param_gpi_trigger_value 7 (length bytes) true
  port ← uint16_at 0 bytes
  b2 ← byte_at 2 bytes
  timeout ← uint32_at 3 bytes
  ok (record { port = port; event = not (b2 / 2 ^ 7 == 0); timeout = timeout })

pub record PeriodicTriggerValue : Type 0 where
  pub offset : ℕ
  pub period : ℕ
  pub utc_timestamp : Option ℕ

-- `PeriodicTriggerValue.getHeader` and `EncodeFields`
unfoldable pub periodic_trigger_value_header : PeriodicTriggerValue → ParamHeader
periodic_trigger_value_header p =
    let subs : ParamHeaders = maybe utc_timestamp_header p.utc_timestamp +++ nil in
    header param_periodic_trigger_value (add_sizes 12 subs) (be32 p.offset ++ be32 p.period) subs

-- `PeriodicTriggerValue.UnmarshalBinary`
unfoldable pub unmarshal_periodic_trigger_value : List ℕ → Outcome CodecError PeriodicTriggerValue
unmarshal_periodic_trigger_value bytes = do
  has_enough_bytes param_periodic_trigger_value 8 (length bytes) false
  offset ← uint32_at 0 bytes
  period ← uint32_at 4 bytes
  rest ← slice_from 8 bytes
  let p : PeriodicTriggerValue = record { offset = offset; period = period; utc_timestamp = none }
  unless_empty rest p (do
    (utc_timestamp, rest2) ← optional param_utc_timestamp (beyond uint64) rest
    let p_utc_timestamp : PeriodicTriggerValue = record p { utc_timestamp = utc_timestamp }
    finished rest2 p_utc_timestamp)
