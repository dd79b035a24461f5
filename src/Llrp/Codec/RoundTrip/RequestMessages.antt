-- ===== src/Llrp/Codec/RoundTrip/RequestMessages.antt =====
-- Requests with parameters of their own, and `CustomMessage`.
use device_rfid_llrp_go.Prelude.{ℕ, ◌≤◌, ◌≡◌, List, [], arith, length, ok}
use device_rfid_llrp_go.Llrp.Params.{ParamHeaders, nil, has_enough_bytes, encode_params}
use device_rfid_llrp_go.Llrp.Fields.{required, ◌+++◌, one}
use device_rfid_llrp_go.Llrp.Fields.Coded.{body, required_last, length-encode_params-cons}
use device_rfid_llrp_go.Llrp.Codec.RoSpecs.{ro_spec_header}
use device_rfid_llrp_go.Llrp.Codec.RequestMessages.{
  AddRoSpec, marshal_add_ro_spec, unmarshal_add_ro_spec,
}
use device_rfid_llrp_go.Llrp.Codec.RoundTrip.RoSpecs.{
  IsRoSpec, ro_spec_coding, ro_spec_header-IsCoded, ro_spec_enough, ro_spec-IsRead,
}

abbrev pub IsAddRoSpec : AddRoSpec → Type 0
IsAddRoSpec p = IsRoSpec p.ro_spec

add_ro_spec_read :
    (p : AddRoSpec) (rest : List ℕ)
    → 19 ≤ length rest
    → required (ro_spec_coding.of_type) (ro_spec_coding.read) rest ≡ ok (p.ro_spec, [])
    → unmarshal_add_ro_spec (rest) ≡ ok p
unfolding unmarshal_add_ro_spec has_enough_bytes
add_ro_spec_read p rest h1 h2 = ground (arith)

-- An `AddROSpec` is read back as it was written, with every parameter that it holds, however many there are
-- of each: for numbers that fit their fields, and sizes of each parameter that fit a uint16.
pub unmarshal_add_ro_spec-marshal :
    (p : AddRoSpec) → IsAddRoSpec p → unmarshal_add_ro_spec (marshal_add_ro_spec p) ≡ ok p
unfolding marshal_add_ro_spec
unmarshal_add_ro_spec-marshal p c0 =
    let i0 = ro_spec-IsRead p.ro_spec c0 in
    let k0 : ParamHeaders = one (ro_spec_header p.ro_spec) +++ nil in
    add_ro_spec_read p (encode_params k0)
      (omega (
        arith,
        length-encode_params-cons (ro_spec_header p.ro_spec) (nil) (i0.0),
        ro_spec_enough (body (ro_spec_header p.ro_spec)) p.ro_spec
            ((ro_spec_header-IsCoded p.ro_spec c0).2),
      ))
      (required_last ro_spec_coding p.ro_spec i0)
