-- ===== src/Llrp/Codec/BlockOpSpecs.antt =====
-- Operations on blocks of tag memory: generated code of pkg/llrp.
use device_rfid_llrp_go.Prelude.{
  ℕ, ◌+◌, ◌*◌, ◌/◌, ◌^◌, Bool, true, false, List, [], ◌∷◌, ◌++◌, length, Outcome, ok, ◌>>=◌, ◌>>◌,
}
use device_rfid_llrp_go.Llrp.Bytes.{be16, be32}
use device_rfid_llrp_go.Llrp.Params.{ParamHeader, header, nil, CodecError, has_enough_bytes}
use device_rfid_llrp_go.Llrp.Fields.{
  byte_at, uint16_at, uint32_at, has_bit, uint16_array, finished, u8, u16, b2b, each_be16,
}
use device_rfid_llrp_go.Llrp.ParamTypes.{
  param_c1g2_block_erase, param_c1g2_block_permalock, param_c1g2_block_write,
  param_c1g2_get_block_permalock_status, param_c1g2_recommission,
}

pub record C1g2BlockErase : Type 0 where
  pub op_spec_id : ℕ
  pub access_password : ℕ
  pub c1g2_memory_bank : ℕ
  pub word_address : ℕ
  pub word_count : ℕ

-- `C1G2BlockErase.getHeader` and `EncodeFields`
unfoldable pub c1g2_block_erase_header : C1g2BlockErase → ParamHeader
c1g2_block_erase_header p =
    header param_c1g2_block_erase 15
      (be16 p.op_spec_id
        ++ be32 p.access_password
        ++ (u8 (p.c1g2_memory_bank * 2 ^ 6) ∷ [])
        ++ be16 p.word_address
        ++ be16 p.word_count)
      nil

-- `C1G2BlockErase.UnmarshalBinary`
unfoldable pub unmarshal_c1g2_block_erase : List ℕ → Outcome CodecError C1g2BlockErase
unmarshal_c1g2_block_erase bytes = do
  has_enough_bytes param_c1g2_block_erase 11 (length bytes) true
  op_spec_id ← uint16_at 0 bytes
  access_password ← uint32_at 2 bytes
  b6 ← byte_at 6 bytes
  word_address ← uint16_at 7 bytes
  word_count ← uint16_at 9 bytes
  ok (record {
    op_spec_id = op_spec_id;
    access_password = access_password;
    c1g2_memory_bank = b6 / 2 ^ 6;
    word_address = word_address;
    word_count = word_count;
  })

pub record C1g2BlockWrite : Type 0 where
  pub op_spec_id : ℕ
  pub access_password : ℕ
  pub c1g2_memory_bank : ℕ
  pub word_address : ℕ
  pub words : List ℕ

-- `C1G2BlockWrite.getHeader` and `EncodeFields`
unfoldable pub c1g2_block_write_header : C1g2BlockWrite → ParamHeader
c1g2_block_write_header p =
    header param_c1g2_block_write (u16 (15 + length p.words * 2))
      (be16 p.op_spec_id
        ++ be32 p.access_password
        ++ (u8 (p.c1g2_memory_bank * 2 ^ 6) ∷ [])
        ++ be16 p.word_address
        ++ be16 (length p.words)
        ++ each_be16 p.words)
      nil

-- `C1G2BlockWrite.UnmarshalBinary`
unfoldable pub unmarshal_c1g2_block_write : List ℕ → Outcome CodecError C1g2BlockWrite
unmarshal_c1g2_block_write bytes = do
  has_enough_bytes param_c1g2_block_write 11 (length bytes) false
  op_spec_id ← uint16_at 0 bytes
  access_password ← uint32_at 2 bytes
  b6 ← byte_at 6 bytes
  word_address ← uint16_at 7 bytes
  (words, rest) ← uint16_array 9 bytes
  finished rest (record {
    op_spec_id = op_spec_id;
    access_password = access_password;
    c1g2_memory_bank = b6 / 2 ^ 6;
    word_address = word_address;
    words = words;
  })

pub record C1g2Recommission : Type 0 where
  pub op_spec_id : ℕ
  pub kill_password : ℕ
  pub sb3 : Bool
  pub sb2 : Bool
  pub lsb : Bool

-- `C1G2Recommission.getHeader` and `EncodeFields`
unfoldable pub c1g2_recommission_header : C1g2Recommission → ParamHeader
c1g2_recommission_header p =
    header param_c1g2_recommission 11
      (be16 p.op_spec_id
        ++ be32 p.kill_password
        ++ ((b2b p.sb3 2 + b2b p.sb2 1 + b2b p.lsb 0) ∷ []))
      nil

-- `C1G2Recommission.UnmarshalBinary`
unfoldable pub unmarshal_c1g2_recommission : List ℕ → Outcome CodecError C1g2Recommission
unmarshal_c1g2_recommission bytes = do
  has_enough_bytes param_c1g2_recommission 7 (length bytes) true
  op_spec_id ← uint16_at 0 bytes
  kill_password ← uint32_at 2 bytes
  b6 ← byte_at 6 bytes
  ok (record {
    op_spec_id = op_spec_id;
    kill_password = kill_password;
    sb3 = has_bit 2 b6;
    sb2 = has_bit 1 b6;
    lsb = has_bit 0 b6;
  })

pub record C1g2BlockPermalock : Type 0 where
  pub op_spec_id : ℕ
  pub access_password : ℕ
  pub c1g2_memory_bank : ℕ
  pub block_address : ℕ
  pub block_mask : List ℕ

-- `C1G2BlockPermalock.getHeader` and `EncodeFields`
unfoldable pub c1g2_block_permalock_header : C1g2BlockPermalock → ParamHeader
c1g2_block_permalock_header p =
    header param_c1g2_block_permalock (u16 (15 + length p.block_mask * 2))
      (be16 p.op_spec_id
        ++ be32 p.access_password
        ++ (u8 (p.c1g2_memory_bank * 2 ^ 6) ∷ [])
        ++ be16 p.block_address
        ++ be16 (length p.block_mask)
        ++ each_be16 p.block_mask)
      nil

-- `C1G2BlockPermalock.UnmarshalBinary`
unfoldable pub unmarshal_c1g2_block_permalock : List ℕ → Outcome CodecError C1g2BlockPermalock
unmarshal_c1g2_block_permalock bytes = do
  has_enough_bytes param_c1g2_block_permalock 11 (length bytes) false
  op_spec_id ← uint16_at 0 bytes
  access_password ← uint32_at 2 bytes
  b6 ← byte_at 6 bytes
  block_address ← uint16_at 7 bytes
  (block_mask, rest) ← uint16_array 9 bytes
  finished rest (record {
    op_spec_id = op_spec_id;
    access_password = access_password;
    c1g2_memory_bank = b6 / 2 ^ 6;
    block_address = block_address;
    block_mask = block_mask;
  })

pub record C1g2GetBlockPermalockStatus : Type 0 where
  pub op_spec_id : ℕ
  pub access_password : ℕ
  pub c1g2_memory_bank : ℕ
  pub block_address : ℕ
  pub block_range : ℕ

-- `C1G2GetBlockPermalockStatus.getHeader` and `EncodeFields`
unfoldable pub c1g2_get_block_permalock_status_header : C1g2GetBlockPermalockStatus → ParamHeader
c1g2_get_block_permalock_status_header p =
    header param_c1g2_get_block_permalock_status 15
      (be16 p.op_spec_id
        ++ be32 p.access_password
        ++ (u8 (p.c1g2_memory_bank * 2 ^ 6) ∷ [])
        ++ be16 p.block_address
        ++ be16 p.block_range)
      nil

-- `C1G2GetBlockPermalockStatus.UnmarshalBinary`
unfoldable pub unmarshal_c1g2_get_block_permalock_status :
    List ℕ → Outcome CodecError C1g2GetBlockPermalockStatus
unmarshal_c1g2_get_block_permalock_status bytes = do
  has_enough_bytes param_c1g2_get_block_permalock_status 11 (length bytes) true
  op_spec_id ← uint16_at 0 bytes
  access_password ← uint32_at 2 bytes
  b6 ← byte_at 6 bytes
  block_address ← uint16_at 7 bytes
  block_range ← uint16_at 9 bytes
  ok (record {
    op_spec_id = op_spec_id;
    access_password = access_password;
    c1g2_memory_bank = b6 / 2 ^ 6;
    block_address = block_address;
    block_range = block_range;
  })
