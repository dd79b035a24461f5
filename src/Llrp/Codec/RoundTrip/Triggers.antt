-- ===== src/Llrp/Codec/RoundTrip/Triggers.antt =====
-- Triggers by time and by port.
use device_rfid_llrp_go.Prelude.{
  ℕ, ◌≤◌, ◌≡◌, refl, none, List, ◌++◌, arith, length, ok, ◌>>=◌, IsU16, IsU32, IsU64,
}
use device_rfid_llrp_go.Llrp.Bytes.{be32}
use device_rfid_llrp_go.Llrp.Params.{ParamHeaders, nil, has_enough_bytes, encode_params, is_tv}
use device_rfid_llrp_go.Llrp.ParamTypes.{param_gpi_trigger_value, param_periodic_trigger_value}
use device_rfid_llrp_go.Llrp.Fields.{finished, unless_empty, optional, ◌+++◌, maybe}
use device_rfid_llrp_go.Llrp.Fields.Coded.{
  Fits, IfSome, IfSome-map, Coding, IsRead, coding, IsCoded, coding-IsRead, optional_last,
  optional_last,
}
use device_rfid_llrp_go.Llrp.Fields.Sized.{IsWritten-subs, AllSized-maybe}
use device_rfid_llrp_go.Llrp.Codec.Scalars.{utc_timestamp_header}
use device_rfid_llrp_go.Llrp.Codec.Triggers.{
  GpiTriggerValue, gpi_trigger_value_header, unmarshal_gpi_trigger_value, PeriodicTriggerValue,
  periodic_trigger_value_header, unmarshal_periodic_trigger_value,
}
use device_rfid_llrp_go.Llrp.Codec.RoundTrip.Scalars.{utc_timestamp_coding, utc_timestamp-IsRead}

abbrev pub IsGpiTriggerValue : GpiTriggerValue → Type 0
IsGpiTriggerValue p = IsU16 p.port × IsU32 p.timeout

abbrev pub gpi_trigger_value_coding : Coding GpiTriggerValue
gpi_trigger_value_coding =
    coding param_gpi_trigger_value gpi_trigger_value_header unmarshal_gpi_trigger_value

pub gpi_trigger_value_header-IsCoded :
    (p : GpiTriggerValue)
    → IsGpiTriggerValue p
    → IsCoded param_gpi_trigger_value gpi_trigger_value_header unmarshal_gpi_trigger_value p
unfolding unmarshal_gpi_trigger_value gpi_trigger_value_header has_enough_bytes encode_params is_tv
gpi_trigger_value_header-IsCoded p v = ground arith

pub gpi_trigger_value-IsRead :
    (x : GpiTriggerValue) → IsGpiTriggerValue x → IsRead gpi_trigger_value_coding x
gpi_trigger_value-IsRead x v =
    coding-IsRead param_gpi_trigger_value gpi_trigger_value_header unmarshal_gpi_trigger_value x
      (gpi_trigger_value_header-IsCoded x v)

abbrev pub IsPeriodicTriggerValue : PeriodicTriggerValue → Type 0
IsPeriodicTriggerValue p =
    IsU32 p.offset
    × IsU32 p.period
    × IfSome IsU64 p.utc_timestamp
    × Fits (periodic_trigger_value_header p)

abbrev pub periodic_trigger_value_coding : Coding PeriodicTriggerValue
periodic_trigger_value_coding =
    coding param_periodic_trigger_value periodic_trigger_value_header
      unmarshal_periodic_trigger_value

periodic_trigger_value_read :
    (p : PeriodicTriggerValue) (rest : List ℕ)
    → IsU32 p.offset
    → IsU32 p.period
    → 8 ≤ length ((be32 p.offset ++ be32 p.period) ++ rest)
    → unless_empty rest
        (record p { utc_timestamp = none })
        (optional (utc_timestamp_coding.of_type) (utc_timestamp_coding.read) rest >>= λ (x, behind).
          finished behind (record p { utc_timestamp = x }))
      ≡ ok p
    → unmarshal_periodic_trigger_value ((be32 p.offset ++ be32 p.period) ++ rest) ≡ ok p
unfolding unmarshal_periodic_trigger_value has_enough_bytes
periodic_trigger_value_read p rest b0 b1 h1 h2 = ground (arith)

pub periodic_trigger_value_header-IsCoded :
    (p : PeriodicTriggerValue)
    → IsPeriodicTriggerValue p
    → IsCoded param_periodic_trigger_value periodic_trigger_value_header
        unmarshal_periodic_trigger_value p
unfolding periodic_trigger_value_header is_tv
periodic_trigger_value_header-IsCoded p (b0, b1, c0, fits) =
    let i0 : IfSome (IsRead utc_timestamp_coding) p.utc_timestamp =
      IfSome-map utc_timestamp-IsRead p.utc_timestamp c0 in
    let k0 : ParamHeaders = maybe utc_timestamp_header p.utc_timestamp +++ nil in
    (
      IsWritten-subs param_periodic_trigger_value 12 (be32 p.offset ++ be32 p.period) _ refl
          (omega arith) refl (AllSized-maybe utc_timestamp_coding p.utc_timestamp _ i0 tt) fits,
      refl,
      periodic_trigger_value_read p (encode_params k0) b0 b1 (omega (arith)) (
          optional_last utc_timestamp_coding (λ o. record p { utc_timestamp = o }) p.utc_timestamp
            i0),
    )

pub periodic_trigger_value-IsRead :
    (x : PeriodicTriggerValue) → IsPeriodicTriggerValue x → IsRead periodic_trigger_value_coding x
periodic_trigger_value-IsRead x v =
    coding-IsRead param_periodic_trigger_value periodic_trigger_value_header
      unmarshal_periodic_trigger_value x (periodic_trigger_value_header-IsCoded x v)
