-- ===== src/Llrp/Codec/OpResults.antt =====
-- Results of operations on tags: generated code of pkg/llrp.
use device_rfid_llrp_go.Prelude.{
  ℕ, ◌+◌, ◌*◌, true, false, List, [], ◌∷◌, ◌++◌, length, Outcome, ok, ◌>>=◌, ◌>>◌,
}
use device_rfid_llrp_go.Llrp.Bytes.{be16}
use device_rfid_llrp_go.Llrp.Params.{ParamHeader, header, nil, CodecError, has_enough_bytes}
use device_rfid_llrp_go.Llrp.Fields.{byte_at, uint16_at, uint16_array, finished, u8, u16, each_be16}
use device_rfid_llrp_go.Llrp.ParamTypes.{
  param_c1g2_block_erase_op_spec_result, param_c1g2_block_permalock_op_spec_result,
  param_c1g2_block_write_op_spec_result, param_c1g2_get_block_permalock_status_op_spec_result,
  param_c1g2_kill_op_spec_result, param_c1g2_lock_op_spec_result, param_c1g2_read_op_spec_result,
  param_c1g2_recommission_op_spec_result, param_c1g2_write_op_spec_result,
}

pub record C1g2ReadOpSpecResult : Type 0 where
  pub c1g2_read_op_spec_result_type : ℕ
  pub op_spec_id : ℕ
  pub words : List ℕ

-- `C1G2ReadOpSpecResult.getHeader` and `EncodeFields`
unfoldable pub c1g2_read_op_spec_result_header : C1g2ReadOpSpecResult → ParamHeader
c1g2_read_op_spec_result_header p =
    header param_c1g2_read_op_spec_result (u16 (9 + length p.words * 2))
      ((u8 p.c1g2_read_op_spec_result_type ∷ [])
        ++ be16 p.op_spec_id
        ++ be16 (length p.words)
        ++ each_be16 p.words)
      nil

-- `C1G2ReadOpSpecResult.UnmarshalBinary`
unfoldable pub unmarshal_c1g2_read_op_spec_result : List ℕ → Outcome CodecError C1g2ReadOpSpecResult
unmarshal_c1g2_read_op_spec_result bytes = do
  has_enough_bytes param_c1g2_read_op_spec_result 5 (length bytes) false
  c1g2_read_op_spec_result_type ← byte_at 0 bytes
  op_spec_id ← uint16_at 1 bytes
  (words, rest) ← uint16_array 3 bytes
  finished rest (record {
    c1g2_read_op_spec_result_type = c1g2_read_op_spec_result_type;
    op_spec_id = op_spec_id;
    words = words;
  })

pub record C1g2WriteOpSpecResult : Type 0 where
  pub c1g2_write_op_spec_result_type : ℕ
  pub op_spec_id : ℕ
  pub words_written : ℕ

-- `C1G2WriteOpSpecResult.getHeader` and `EncodeFields`
unfoldable pub c1g2_write_op_spec_result_header : C1g2WriteOpSpecResult → ParamHeader
c1g2_write_op_spec_result_header p =
    header param_c1g2_write_op_spec_result 9
      ((u8 p.c1g2_write_op_spec_result_type ∷ []) ++ be16 p.op_spec_id ++ be16 p.words_written) nil

-- `C1G2WriteOpSpecResult.UnmarshalBinary`
unfoldable pub unmarshal_c1g2_write_op_spec_result :
    List ℕ → Outcome CodecError C1g2WriteOpSpecResult
unmarshal_c1g2_write_op_spec_result bytes = do
  has_enough_bytes param_c1g2_write_op_spec_result 5 (length bytes) true
  c1g2_write_op_spec_result_type ← byte_at 0 bytes
  op_spec_id ← uint16_at 1 bytes
  words_written ← uint16_at 3 bytes
  ok (record {
    c1g2_write_op_spec_result_type = c1g2_write_op_spec_result_type;
    op_spec_id = op_spec_id;
    words_written = words_written;
  })

pub record C1g2KillOpSpecResult : Type 0 where
  pub c1g2_kill_result : ℕ
  pub op_spec_id : ℕ

-- `C1G2KillOpSpecResult.getHeader` and `EncodeFields`
unfoldable pub c1g2_kill_op_spec_result_header : C1g2KillOpSpecResult → ParamHeader
c1g2_kill_op_spec_result_header p =
    header param_c1g2_kill_op_spec_result 7 ((u8 p.c1g2_kill_result ∷ []) ++ be16 p.op_spec_id) nil

-- `C1G2KillOpSpecResult.UnmarshalBinary`
unfoldable pub unmarshal_c1g2_kill_op_spec_result : List ℕ → Outcome CodecError C1g2KillOpSpecResult
unmarshal_c1g2_kill_op_spec_result bytes = do
  has_enough_bytes param_c1g2_kill_op_spec_result 3 (length bytes) true
  c1g2_kill_result ← byte_at 0 bytes
  op_spec_id ← uint16_at 1 bytes
  ok (record { c1g2_kill_result = c1g2_kill_result; op_spec_id = op_spec_id })

pub record C1g2LockOpSpecResult : Type 0 where
  pub c1g2_lock_result : ℕ
  pub op_spec_id : ℕ

-- `C1G2LockOpSpecResult.getHeader` and `EncodeFields`
unfoldable pub c1g2_lock_op_spec_result_header : C1g2LockOpSpecResult → ParamHeader
c1g2_lock_op_spec_result_header p =
    header param_c1g2_lock_op_spec_result 7 ((u8 p.c1g2_lock_result ∷ []) ++ be16 p.op_spec_id) nil

-- `C1G2LockOpSpecResult.UnmarshalBinary`
unfoldable pub unmarshal_c1g2_lock_op_spec_result : List ℕ → Outcome CodecError C1g2LockOpSpecResult
unmarshal_c1g2_lock_op_spec_result bytes = do
  has_enough_bytes param_c1g2_lock_op_spec_result 3 (length bytes) true
  c1g2_lock_result ← byte_at 0 bytes
  op_spec_id ← uint16_at 1 bytes
  ok (record { c1g2_lock_result = c1g2_lock_result; op_spec_id = op_spec_id })

pub record C1g2BlockEraseOpSpecResult : Type 0 where
  pub c1g2_block_erase_result : ℕ
  pub op_spec_id : ℕ

-- `C1G2BlockEraseOpSpecResult.getHeader` and `EncodeFields`
unfoldable pub c1g2_block_erase_op_spec_result_header : C1g2BlockEraseOpSpecResult → ParamHeader
c1g2_block_erase_op_spec_result_header p =
    header param_c1g2_block_erase_op_spec_result 7
      ((u8 p.c1g2_block_erase_result ∷ []) ++ be16 p.op_spec_id) nil

-- `C1G2BlockEraseOpSpecResult.UnmarshalBinary`
unfoldable pub unmarshal_c1g2_block_erase_op_spec_result :
    List ℕ → Outcome CodecError C1g2BlockEraseOpSpecResult
unmarshal_c1g2_block_erase_op_spec_result bytes = do
  has_enough_bytes param_c1g2_block_erase_op_spec_result 3 (length bytes) true
  c1g2_block_erase_result ← byte_at 0 bytes
  op_spec_id ← uint16_at 1 bytes
  ok (record { c1g2_block_erase_result = c1g2_block_erase_result; op_spec_id = op_spec_id })

pub record C1g2BlockWriteOpSpecResult : Type 0 where
  pub c1g2_block_write_result : ℕ
  pub op_spec_id : ℕ
  pub words_written : ℕ

-- `C1G2BlockWriteOpSpecResult.getHeader` and `EncodeFields`
unfoldable pub c1g2_block_write_op_spec_result_header : C1g2BlockWriteOpSpecResult → ParamHeader
c1g2_block_write_op_spec_result_header p =
    header param_c1g2_block_write_op_spec_result 9
      ((u8 p.c1g2_block_write_result ∷ []) ++ be16 p.op_spec_id ++ be16 p.words_written) nil

-- `C1G2BlockWriteOpSpecResult.UnmarshalBinary`
unfoldable pub unmarshal_c1g2_block_write_op_spec_result :
    List ℕ → Outcome CodecError C1g2BlockWriteOpSpecResult
unmarshal_c1g2_block_write_op_spec_result bytes = do
  has_enough_bytes param_c1g2_block_write_op_spec_result 5 (length bytes) true
  c1g2_block_write_result ← byte_at 0 bytes
  op_spec_id ← uint16_at 1 bytes
  words_written ← uint16_at 3 bytes
  ok (record {
    c1g2_block_write_result = c1g2_block_write_result;
    op_spec_id = op_spec_id;
    words_written = words_written;
  })

pub record C1g2RecommissionOpSpecResult : Type 0 where
  pub c1g2_recommission_result : ℕ
  pub op_spec_id : ℕ

-- `C1G2RecommissionOpSpecResult.getHeader` and `EncodeFields`
unfoldable pub c1g2_recommission_op_spec_result_header : C1g2RecommissionOpSpecResult → ParamHeader
c1g2_recommission_op_spec_result_header p =
    header param_c1g2_recommission_op_spec_result 7
      ((u8 p.c1g2_recommission_result ∷ []) ++ be16 p.op_spec_id) nil

-- `C1G2RecommissionOpSpecResult.UnmarshalBinary`
unfoldable pub unmarshal_c1g2_recommission_op_spec_result :
    List ℕ → Outcome CodecError C1g2RecommissionOpSpecResult
unmarshal_c1g2_recommission_op_spec_result bytes = do
  has_enough_bytes param_c1g2_recommission_op_spec_result 3 (length bytes) true
  c1g2_recommission_result ← byte_at 0 bytes
  op_spec_id ← uint16_at 1 bytes
  ok (record { c1g2_recommission_result = c1g2_recommission_result; op_spec_id = op_spec_id })

pub record C1g2BlockPermalockOpSpecResult : Type 0 where
  pub c1g2_block_permalock_result : ℕ
  pub op_spec_id : ℕ

-- `C1G2BlockPermalockOpSpecResult.getHeader` and `EncodeFields`
unfoldable pub c1g2_block_permalock_op_spec_result_header :
    C1g2BlockPermalockOpSpecResult → ParamHeader
c1g2_block_permalock_op_spec_result_header p =
    header param_c1g2_block_permalock_op_spec_result 7
      ((u8 p.c1g2_block_permalock_result ∷ []) ++ be16 p.op_spec_id) nil

-- `C1G2BlockPermalockOpSpecResult.UnmarshalBinary`
unfoldable pub unmarshal_c1g2_block_permalock_op_spec_result :
    List ℕ → Outcome CodecError C1g2BlockPermalockOpSpecResult
unmarshal_c1g2_block_permalock_op_spec_result bytes = do
  has_enough_bytes param_c1g2_block_permalock_op_spec_result 3 (length bytes) true
  c1g2_block_permalock_result ← byte_at 0 bytes
  op_spec_id ← uint16_at 1 bytes
  ok (record { c1g2_block_permalock_result = c1g2_block_permalock_result; op_spec_id = op_spec_id })

pub record C1g2GetBlockPermalockStatusOpSpecResult : Type 0 where
  pub c1g2_get_block_permalock_status_result : ℕ
  pub op_spec_id : ℕ
  pub permalock_statuses : List ℕ

-- `C1G2GetBlockPermalockStatusOpSpecResult.getHeader` and `EncodeFields`
unfoldable pub c1g2_get_block_permalock_status_op_spec_result_header :
    C1g2GetBlockPermalockStatusOpSpecResult → ParamHeader
c1g2_get_block_permalock_status_op_spec_result_header p =
    header param_c1g2_get_block_permalock_status_op_spec_result
      (u16 (9 + length p.permalock_statuses * 2))
      ((u8 p.c1g2_get_block_permalock_status_result ∷ [])
        ++ be16 p.op_spec_id
        ++ be16 (length p.permalock_statuses)
        ++ each_be16 p.permalock_statuses)
      nil

-- `C1G2GetBlockPermalockStatusOpSpecResult.UnmarshalBinary`
unfoldable pub unmarshal_c1g2_get_block_permalock_status_op_spec_result :
    List ℕ → Outcome CodecError C1g2GetBlockPermalockStatusOpSpecResult
unmarshal_c1g2_get_block_permalock_status_op_spec_result bytes = do
  has_enough_bytes param_c1g2_get_block_permalock_status_op_spec_result 5 (length bytes) false
  c1g2_get_block_permalock_status_result ← byte_at 0 bytes
  op_spec_id ← uint16_at 1 bytes
  (permalock_statuses, rest) ← uint16_array 3 bytes
  finished rest (record {
    c1g2_get_block_permalock_status_result = c1g2_get_block_permalock_status_result;
    op_spec_id = op_spec_id;
    permalock_statuses = permalock_statuses;
  })
