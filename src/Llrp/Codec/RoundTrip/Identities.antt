-- ===== src/Llrp/Codec/RoundTrip/Identities.antt =====
-- Parameters that identify tags, and `Custom`.
use device_rfid_llrp_go.Prelude.{◌+◌, refl, ◌++◌, arith, length, IsU32}
use mathlib.Core.List.{append-nil}
use device_rfid_llrp_go.Llrp.Bytes.{be32}
use device_rfid_llrp_go.Llrp.Params.{has_enough_bytes, encode_params, is_tv}
use device_rfid_llrp_go.Llrp.ParamTypes.{param_custom}
use device_rfid_llrp_go.Llrp.Fields.Coded.{Fits, Coding, IsRead, coding, IsCoded, coding-IsRead}
use device_rfid_llrp_go.Llrp.Fields.Sized.{IsWritten-leaf}
use device_rfid_llrp_go.Llrp.Codec.Identities.{Custom, custom_header, unmarshal_custom}

abbrev pub IsCustom : Custom → Type 0
IsCustom p = IsU32 p.vendor_id × IsU32 p.subtype × Fits (custom_header p)

abbrev pub custom_coding : Coding Custom
custom_coding = coding param_custom custom_header unmarshal_custom

pub custom_header-IsCoded :
    (p : Custom) → IsCustom p → IsCoded param_custom custom_header unmarshal_custom p
unfolding unmarshal_custom custom_header has_enough_bytes encode_params is_tv
custom_header-IsCoded p (b0, b1, fits) = (
  IsWritten-leaf param_custom (12 + length p.words) (be32 p.vendor_id ++ be32 p.subtype ++ p.words)
      refl (omega arith) (omega arith) fits,
  refl,
  ground (arith, append-nil p.words),
)

pub custom-IsRead : (x : Custom) → IsCustom x → IsRead custom_coding x
custom-IsRead x v =
    coding-IsRead param_custom custom_header unmarshal_custom x (custom_header-IsCoded x v)
