-- ===== src/Llrp/Params.antt =====
-- Parameters: their types (pkg/llrp/params.go), their headers as `encodeParams` writes them
-- (pkg/llrp/msg_builder.go), and the header checks that the generated readers share
-- (pkg/llrp/generated_unmarshal.go). The writer is a `bytes.Buffer`, whose writes do not fail.
pub mod Sizes
pub mod Kinds
use device_rfid_llrp_go.Prelude.{
  ℕ, zero, suc, ◌+◌, ◌/◌, ◌%◌, ◌^◌, ◌≤◌, ◌<◌, ◌≡◌, Bool, true, false, ◌&&◌, ◌||◌, not, List, [],
  ◌∷◌, ◌++◌, arith, leb, ltb, ◌==◌, if◌then◌else◌, length, Outcome, ok, err, bit_or, ◌>>=◌, ◌>>◌,
  guard,
}
use device_rfid_llrp_go.Llrp.Bytes.{be16, uint16, slice_from}

abbrev pub param_resv_start : ℕ
param_resv_start = 900

abbrev pub param_resv_end : ℕ
param_resv_end = 999

-- `ParamType.IsTV`, `IsTLV` and `IsValid`
unfoldable pub is_tv : ℕ → Bool
is_tv pt = not (pt == 0) && leb pt 127

unfoldable pub is_tlv : ℕ → Bool
is_tlv pt = leb 128 pt && leb pt 2047

unfoldable pub is_valid : ℕ → Bool
is_valid pt = ltb 0 pt && leb pt 2047 && (ltb pt param_resv_start || ltb param_resv_end pt)

-- `paramHeader`: type, size, the bytes that `EncodeFields` writes, and the sub-parameters.
mutual
  pub data ParamHeader : Type 0 where
    header : ℕ → ℕ → List ℕ → ParamHeaders → ParamHeader

  pub data ParamHeaders : Type 0 where
    nil : ParamHeaders
    cons : ParamHeader → ParamHeaders → ParamHeaders

abbrev pub size : ParamHeader → ℕ
size (header t sz fields subs) = sz

-- The header bytes: one for a TV parameter, four for any other.
unfoldable pub head_bytes : ℕ → ℕ → List ℕ
unfolding is_tv
head_bytes t sz = if is_tv t then (bit_or t 0x80 % 256) ∷ [] else be16 t ++ be16 sz

unfoldable mutual
  pub encode_param : ParamHeader → List ℕ
  encode_param (header t sz fields subs) = head_bytes t sz ++ (fields ++ encode_params subs)

  -- `encodeParams`
  pub encode_params : ParamHeaders → List ℕ
  encode_params nil = []
  encode_params (cons h hs) = encode_param h ++ encode_params hs

-- The errors of the generated readers, which name the type of the message or parameter;
pub data CodecError : Type 0 where
  not_enough : ℕ → ℕ → ℕ → CodecError
  wrong_length : ℕ → ℕ → CodecError
  declares_too_much : ℕ → ℕ → CodecError
  unexpected_param : ℕ → CodecError
  trailing : ℕ → CodecError
  exhausted : CodecError

-- `hasEnoughBytes`. Its flag `exact` only words the message.
unfoldable pub has_enough_bytes : ℕ → ℕ → ℕ → Bool → Outcome CodecError (Unit {0})
has_enough_bytes pt needed got exact = guard (leb needed got) (CodecError.not_enough pt needed got)

-- The type and the length of the parameter at the front of `data`, and the check that it is all there.
unfoldable pub next_tlv : List ℕ → Outcome CodecError (ℕ × ℕ)
next_tlv bytes = do
  pt ← uint16 bytes
  behind ← slice_from 2 bytes
  sub_len ← uint16 behind
  guard (leb sub_len (length bytes)) (CodecError.declares_too_much sub_len (length bytes))
  ok (pt, sub_len)
