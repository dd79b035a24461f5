-- ===== src/Llrp/Codec/OpSpecs.antt =====
-- Operations on tags: `C1G2Read`, `C1G2Write`, `C1G2Lock`: generated code of pkg/llrp.
use device_rfid_llrp_go.Prelude.{
  ℕ, suc, ◌+◌, ◌*◌, ◌/◌, ◌^◌, Bool, true, false, Option, none, List, [], ◌∷◌, ◌++◌, ◌==◌,
  if◌then◌else◌, length, Outcome, ok, ◌>>=◌, ◌>>◌,
}
use device_rfid_llrp_go.Llrp.Bytes.{be16, be32, slice_from}
use device_rfid_llrp_go.Llrp.Params.{
  ParamHeader, ParamHeaders, header, nil, CodecError, has_enough_bytes,
}
use device_rfid_llrp_go.Llrp.Fields.{
  byte_at, uint16_at, uint32_at, has_bit, uint16_array, bit_bytes, bit_array, finished,
  unless_empty, within, required, optional, Cases, into, group, u8, u16, b2b, each_be16, ◌+++◌, one,
  every, maybe, add_sizes,
}
use device_rfid_llrp_go.Llrp.ParamTypes.{
  param_c1g2_kill, param_c1g2_lock, param_c1g2_lock_payload, param_c1g2_read, param_c1g2_tag_spec,
  param_c1g2_target_tag, param_c1g2_write,
}

pub record C1g2TargetTag : Type 0 where
  pub c1g2_memory_bank : ℕ
  pub match_flag : Bool
  pub most_significant_bit : ℕ
  pub tag_mask_num_bits : ℕ
  pub tag_mask : List ℕ
  pub tag_data_num_bits : ℕ
  pub tag_data : List ℕ

-- `C1G2TargetTag.getHeader` and `EncodeFields`
unfoldable pub c1g2_target_tag_header : C1g2TargetTag → ParamHeader
c1g2_target_tag_header p =
    header param_c1g2_target_tag
      (u16 (11 + bit_bytes p.tag_mask_num_bits + bit_bytes p.tag_data_num_bits))
      (((u8 (p.c1g2_memory_bank * 2 ^ 6) + b2b p.match_flag 5) ∷ [])
        ++ be16 p.most_significant_bit
        ++ be16 p.tag_mask_num_bits
        ++ p.tag_mask
        ++ be16 p.tag_data_num_bits
        ++ p.tag_data)
      nil

-- `C1G2TargetTag.UnmarshalBinary`
unfoldable pub unmarshal_c1g2_target_tag : List ℕ → Outcome CodecError C1g2TargetTag
unmarshal_c1g2_target_tag bytes = do
  has_enough_bytes param_c1g2_target_tag 7 (length bytes) false
  b0 ← byte_at 0 bytes
  most_significant_bit ← uint16_at 1 bytes
  tag_mask_num_bits ← uint16_at 3 bytes
  (tag_mask, rest) ← bit_array tag_mask_num_bits 5 bytes
  tag_data_num_bits ← uint16_at 0 rest
  (tag_data, rest2) ← bit_array tag_data_num_bits 2 rest
  finished rest2 (record {
    c1g2_memory_bank = b0 / 2 ^ 6;
    match_flag = has_bit 5 b0;
    most_significant_bit = most_significant_bit;
    tag_mask_num_bits = tag_mask_num_bits;
    tag_mask = tag_mask;
    tag_data_num_bits = tag_data_num_bits;
    tag_data = tag_data;
  })

pub record C1g2TagSpec : Type 0 where
  pub tag_pattern1 : C1g2TargetTag
  pub tag_pattern2 : Option C1g2TargetTag

-- `C1G2TagSpec.getHeader` and `EncodeFields`
unfoldable pub c1g2_tag_spec_header : C1g2TagSpec → ParamHeader
c1g2_tag_spec_header p =
    let subs : ParamHeaders =
      one (c1g2_target_tag_header p.tag_pattern1)
      +++ maybe c1g2_target_tag_header p.tag_pattern2
      +++ nil in
    header param_c1g2_tag_spec (add_sizes 4 subs) ([]) subs

-- `C1G2TagSpec.UnmarshalBinary`
unfoldable pub unmarshal_c1g2_tag_spec : List ℕ → Outcome CodecError C1g2TagSpec
unmarshal_c1g2_tag_spec bytes = do
  has_enough_bytes param_c1g2_tag_spec 11 (length bytes) false
  (tag_pattern1, rest) ← required param_c1g2_target_tag (within unmarshal_c1g2_target_tag) bytes
  let p : C1g2TagSpec = record { tag_pattern1 = tag_pattern1; tag_pattern2 = none }
  unless_empty rest p (do
    (tag_pattern2, rest2) ← optional param_c1g2_target_tag (within unmarshal_c1g2_target_tag) rest
    let p_tag_pattern2 : C1g2TagSpec = record p { tag_pattern2 = tag_pattern2 }
    finished rest2 p_tag_pattern2)

pub record C1g2Read : Type 0 where
  pub op_spec_id : ℕ
  pub access_password : ℕ
  pub c1g2_memory_bank : ℕ
  pub word_address : ℕ
  pub word_count : ℕ

-- `C1G2Read.getHeader` and `EncodeFields`
unfoldable pub c1g2_read_header : C1g2Read → ParamHeader
c1g2_read_header p =
    header param_c1g2_read 15
      (be16 p.op_spec_id
        ++ be32 p.access_password
        ++ (u8 (p.c1g2_memory_bank * 2 ^ 6) ∷ [])
        ++ be16 p.word_address
        ++ be16 p.word_count)
      nil

-- `C1G2Read.UnmarshalBinary`
unfoldable pub unmarshal_c1g2_read : List ℕ → Outcome CodecError C1g2Read
unmarshal_c1g2_read bytes = do
  has_enough_bytes param_c1g2_read 11 (length bytes) true
  op_spec_id ← uint16_at 0 bytes
  access_password ← uint32_at 2 bytes
  b6 ← byte_at 6 bytes
  word_address ← uint16_at 7 bytes
  word_count ← uint16_at 9 bytes
  ok (record {
    op_spec_id = op_spec_id;
    access_password = access_password;
    c1g2_memory_bank = b6 / 2 ^ 6;
    word_address = word_address;
    word_count = word_count;
  })

pub record C1g2Write : Type 0 where
  pub op_spec_id : ℕ
  pub access_password : ℕ
  pub c1g2_memory_bank : ℕ
  pub word_address : ℕ
  pub words : List ℕ

-- `C1G2Write.getHeader` and `EncodeFields`
unfoldable pub c1g2_write_header : C1g2Write → ParamHeader
c1g2_write_header p =
    header param_c1g2_write (u16 (15 + length p.words * 2))
      (be16 p.op_spec_id
        ++ be32 p.access_password
        ++ (u8 (p.c1g2_memory_bank * 2 ^ 6) ∷ [])
        ++ be16 p.word_address
        ++ be16 (length p.words)
        ++ each_be16 p.words)
      nil

-- `C1G2Write.UnmarshalBinary`
unfoldable pub unmarshal_c1g2_write : List ℕ → Outcome CodecError C1g2Write
unmarshal_c1g2_write bytes = do
  has_enough_bytes param_c1g2_write 11 (length bytes) false
  op_spec_id ← uint16_at 0 bytes
  access_password ← uint32_at 2 bytes
  b6 ← byte_at 6 bytes
  word_address ← uint16_at 7 bytes
  (words, rest) ← uint16_array 9 bytes
  finished rest (record {
    op_spec_id = op_spec_id;
    access_password = access_password;
    c1g2_memory_bank = b6 / 2 ^ 6;
    word_address = word_address;
    words = words;
  })

pub record C1g2Kill : Type 0 where
  pub op_spec_id : ℕ
  pub kill_password : ℕ

-- `C1G2Kill.getHeader` and `EncodeFields`
unfoldable pub c1g2_kill_header : C1g2Kill → ParamHeader
c1g2_kill_header p = header param_c1g2_kill 10 (be16 p.op_spec_id ++ be32 p.kill_password) nil

-- `C1G2Kill.UnmarshalBinary`
unfoldable pub unmarshal_c1g2_kill : List ℕ → Outcome CodecError C1g2Kill
unmarshal_c1g2_kill bytes = do
  has_enough_bytes param_c1g2_kill 6 (length bytes) true
  op_spec_id ← uint16_at 0 bytes
  kill_password ← uint32_at 2 bytes
  ok (record { op_spec_id = op_spec_id; kill_password = kill_password })

pub record C1g2LockPayload : Type 0 where
  pub lock_privilege : ℕ
  pub lock_data : ℕ

-- `C1G2LockPayload.getHeader` and `EncodeFields`
unfoldable pub c1g2_lock_payload_header : C1g2LockPayload → ParamHeader
c1g2_lock_payload_header p =
    header param_c1g2_lock_payload 6 (u8 p.lock_privilege ∷ u8 p.lock_data ∷ []) nil

-- `C1G2LockPayload.UnmarshalBinary`
unfoldable pub unmarshal_c1g2_lock_payload : List ℕ → Outcome CodecError C1g2LockPayload
unmarshal_c1g2_lock_payload bytes = do
  has_enough_bytes param_c1g2_lock_payload 2 (length bytes) true
  lock_privilege ← byte_at 0 bytes
  lock_data ← byte_at 1 bytes
  ok (record { lock_privilege = lock_privilege; lock_data = lock_data })

pub record C1g2Lock : Type 0 where
  pub op_spec_id : ℕ
  pub access_password : ℕ
  pub c1g2_lock_payloads : List C1g2LockPayload

-- `C1G2Lock.getHeader` and `EncodeFields`
unfoldable pub c1g2_lock_header : C1g2Lock → ParamHeader
c1g2_lock_header p =
    let subs : ParamHeaders = every c1g2_lock_payload_header p.c1g2_lock_payloads +++ nil in
    header param_c1g2_lock (add_sizes 10 subs) (be16 p.op_spec_id ++ be32 p.access_password) subs

unfoldable pub c1g2_lock_group1 : Cases C1g2Lock
c1g2_lock_group1 pt p =
    if pt == param_c1g2_lock_payload
    then into (within unmarshal_c1g2_lock_payload)
        (λ x. record p { c1g2_lock_payloads = p.c1g2_lock_payloads ++ (x ∷ []) })
    else none

-- `C1G2Lock.UnmarshalBinary`
unfoldable pub unmarshal_c1g2_lock : List ℕ → Outcome CodecError C1g2Lock
unmarshal_c1g2_lock bytes = do
  has_enough_bytes param_c1g2_lock 12 (length bytes) false
  op_spec_id ← uint16_at 0 bytes
  access_password ← uint32_at 2 bytes
  rest ← slice_from 6 bytes
  let p : C1g2Lock = record {
    op_spec_id = op_spec_id;
    access_password = access_password;
    c1g2_lock_payloads = [];
  }
  (p2, rest2) ← group (suc (length rest)) c1g2_lock_group1 p rest
  finished rest2 p2
