-- ===== src/Llrp/Codec/Identities.antt =====
-- Parameters that identify tags, and `Custom`: generated code of pkg/llrp.
use device_rfid_llrp_go.Prelude.{
  ℕ, ◌+◌, ◌*◌, ◌/◌, ◌^◌, Bool, true, false, List, [], ◌∷◌, ◌++◌, length, Outcome, ok, ◌>>=◌, ◌>>◌,
}
use device_rfid_llrp_go.Llrp.Bytes.{be16, be32, slice, slice_from}
use device_rfid_llrp_go.Llrp.Params.{ParamHeader, header, nil, CodecError, has_enough_bytes}
use device_rfid_llrp_go.Llrp.Fields.{
  byte_at, uint16_at, uint32_at, has_bit, bit_bytes, bit_array, finished, u8, u16, b2b,
}
use device_rfid_llrp_go.Llrp.ParamTypes.{
  param_c1g2_pc, param_c1g2_singulation_details, param_custom, param_epc96, param_epc_data,
}

pub record C1g2Pc : Type 0 where
  pub epc_memory_length : ℕ
  pub has_user_memory : Bool
  pub has_xpc : Bool
  pub is_iso15961 : Bool
  pub attributes_or_afi : ℕ

-- `C1G2PC.getHeader` and `EncodeFields`
unfoldable pub c1g2_pc_header : C1g2Pc → ParamHeader
c1g2_pc_header p =
    header param_c1g2_pc 3
      (((u8 (p.epc_memory_length * 2 ^ 3)
          + b2b p.has_user_memory 2
          + b2b p.has_xpc 1
          + b2b p.is_iso15961 0)
        ∷ p.attributes_or_afi
        ∷ []))
      nil

-- `C1G2PC.UnmarshalBinary`
unfoldable pub unmarshal_c1g2_pc : List ℕ → Outcome CodecError C1g2Pc
unmarshal_c1g2_pc bytes = do
  has_enough_bytes param_c1g2_pc 2 (length bytes) true
  b0 ← byte_at 0 bytes
  attributes_or_afi ← byte_at 1 bytes
  ok (record {
    epc_memory_length = b0 / 2 ^ 3;
    has_user_memory = has_bit 2 b0;
    has_xpc = has_bit 1 b0;
    is_iso15961 = has_bit 0 b0;
    attributes_or_afi = attributes_or_afi;
  })

pub record Epc96 : Type 0 where
  pub epc : List ℕ

abbrev pub zero_epc96 : Epc96
zero_epc96 = record { epc = [] }

-- `EPC96.UnmarshalBinary`
unfoldable pub unmarshal_epc96 : List ℕ → Outcome CodecError Epc96
unmarshal_epc96 bytes = do
  has_enough_bytes param_epc96 12 (length bytes) true
  epc ← slice 0 12 bytes
  ok (record { epc = epc })

pub record C1g2SingulationDetails : Type 0 where
  pub num_collision_slots : ℕ
  pub num_empty_slots : ℕ

-- `C1G2SingulationDetails.getHeader` and `EncodeFields`
unfoldable pub c1g2_singulation_details_header : C1g2SingulationDetails → ParamHeader
c1g2_singulation_details_header p =
    header param_c1g2_singulation_details 5 (be16 p.num_collision_slots ++ be16 p.num_empty_slots)
      nil

-- `C1G2SingulationDetails.UnmarshalBinary`
unfoldable pub unmarshal_c1g2_singulation_details :
    List ℕ → Outcome CodecError C1g2SingulationDetails
unmarshal_c1g2_singulation_details bytes = do
  has_enough_bytes param_c1g2_singulation_details 4 (length bytes) true
  num_collision_slots ← uint16_at 0 bytes
  num_empty_slots ← uint16_at 2 bytes
  ok (record { num_collision_slots = num_collision_slots; num_empty_slots = num_empty_slots })

pub record EpcData : Type 0 where
  pub epc_num_bits : ℕ
  pub epc : List ℕ

abbrev pub zero_epc_data : EpcData
zero_epc_data = record { epc_num_bits = 0; epc = [] }

-- `EPCData.getHeader` and `EncodeFields`
unfoldable pub epc_data_header : EpcData → ParamHeader
epc_data_header p =
    header param_epc_data (u16 (6 + bit_bytes p.epc_num_bits)) (be16 p.epc_num_bits ++ p.epc) nil

-- `EPCData.UnmarshalBinary`
unfoldable pub unmarshal_epc_data : List ℕ → Outcome CodecError EpcData
unmarshal_epc_data bytes = do
  has_enough_bytes param_epc_data 2 (length bytes) false
  epc_num_bits ← uint16_at 0 bytes
  (epc, rest) ← bit_array epc_num_bits 2 bytes
  finished rest (record { epc_num_bits = epc_num_bits; epc = epc })

pub record Custom : Type 0 where
  pub vendor_id : ℕ
  pub subtype : ℕ
  pub words : List ℕ

-- `Custom.getHeader` and `EncodeFields`
unfoldable pub custom_header : Custom → ParamHeader
custom_header p =
    header param_custom (u16 (12 + length p.words)) (be32 p.vendor_id ++ be32 p.subtype ++ p.words)
      nil

-- `Custom.UnmarshalBinary`
unfoldable pub unmarshal_custom : List ℕ → Outcome CodecError Custom
unmarshal_custom bytes = do
  has_enough_bytes param_custom 8 (length bytes) false
  vendor_id ← uint32_at 0 bytes
  subtype ← uint32_at 4 bytes
  words ← slice_from 8 bytes
  rest ← slice_from 8 bytes
  ok (record { vendor_id = vendor_id; subtype = subtype; words = words })
