-- ===== src/Llrp/Codec/Endless.antt =====
-- Declared lengths on which the generated readers do not end, or lose what they read.
use device_rfid_llrp_go.Prelude.{
  ℕ, zero, suc, ◌+◌, ◌*◌, ◌/◌, ◌%◌, ◌^◌, ◌≡◌, refl, some, List, ◌++◌, arith, err, IsU8, IsU16,
  IsU32,
}
use device_rfid_llrp_go.Llrp.Bytes.{be16, be32}
use device_rfid_llrp_go.Llrp.Params.{
  CodecError, next_tlv, encode_param, encode_params, has_enough_bytes, head_bytes, is_tv,
}
use device_rfid_llrp_go.Llrp.ParamTypes.{param_loop_spec}
use device_rfid_llrp_go.Llrp.Fields.{group, optional_tv_kept}
use device_rfid_llrp_go.Llrp.Fields.Coded.{body}
use device_rfid_llrp_go.Llrp.Codec.Identities.{
  C1g2SingulationDetails, c1g2_singulation_details_header, unmarshal_c1g2_singulation_details,
}
use device_rfid_llrp_go.Llrp.Codec.RoSpecs.{RoSpec, ro_spec_group2}
use device_rfid_llrp_go.Llrp.Codec.Events.{
  AiSpecEvent, ai_spec_event_header, unmarshal_ai_spec_event,
}

-- The last loop of the reader of `ROSpec` never passes a `LoopSpec` that declares a length of 0: however
-- much fuel it is given, and whatever follows.
pub ro_spec_group2_endless :
    (fuel v : ℕ) (p : RoSpec) (rest : List ℕ)
    → group fuel ro_spec_group2 p (be16 param_loop_spec ++ be16 0 ++ be32 v ++ rest)
      ≡ err CodecError.exhausted
unfolding group ro_spec_group2 next_tlv
ro_spec_group2_endless zero v p rest = refl
ro_spec_group2_endless (suc fuel) v p rest =
    let read : ℕ =
      v / 2 ^ 24 % 256 * 2 ^ 24 + v / 2 ^ 16 % 256 * 2 ^ 16 + v / 2 ^ 8 % 256 * 2 ^ 8 + v % 256 in
    ground (arith, ro_spec_group2_endless fuel v (record p { loop_spec = some read }) rest)

-- An `AISpecEvent` with details, all numbers of which fit their fields, is refused as it is written, with
-- five bytes left over: its reader does not pass over the details.
pub unmarshal_ai_spec_event_details :
    (p : AiSpecEvent) (d : C1g2SingulationDetails)
    → IsU8 p.event
    → IsU32 p.ro_spec_id
    → IsU16 p.spec_index
    → IsU16 d.num_collision_slots
    → IsU16 d.num_empty_slots
    → unmarshal_ai_spec_event
        (body (ai_spec_event_header (record p { singulation_details = some d })))
      ≡ err (CodecError.trailing 5)
unfolding unmarshal_ai_spec_event ai_spec_event_header c1g2_singulation_details_header
    has_enough_bytes encode_params encode_param head_bytes is_tv optional_tv_kept
    unmarshal_c1g2_singulation_details
unmarshal_ai_spec_event_details p d a b c e f = ground arith
