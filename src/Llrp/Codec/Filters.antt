-- ===== src/Llrp/Codec/Filters.antt =====
-- `C1G2Filter` and its parts: generated code of pkg/llrp.
use device_rfid_llrp_go.Prelude.{
  ℕ, suc, ◌+◌, ◌*◌, ◌/◌, ◌^◌, true, false, Option, none, some, List, [], ◌∷◌, ◌++◌, ◌==◌,
  if◌then◌else◌, length, Outcome, ok, ◌>>=◌, ◌>>◌,
}
use device_rfid_llrp_go.Llrp.Bytes.{be16, uint8, slice_from}
use device_rfid_llrp_go.Llrp.Params.{
  ParamHeader, ParamHeaders, header, nil, CodecError, has_enough_bytes,
}
use device_rfid_llrp_go.Llrp.Fields.{
  byte_at, uint16_at, bit_bytes, bit_array, finished, unless_empty, within, beyond, required, Cases,
  into, group, u8, u16, ◌+++◌, one, maybe, add_sizes,
}
use device_rfid_llrp_go.Llrp.ParamTypes.{
  param_c1g2_filter, param_c1g2_tag_inventory_mask,
  param_c1g2_tag_inventory_state_aware_filter_action,
  param_c1g2_tag_inventory_state_unaware_filter_action,
}
use device_rfid_llrp_go.Llrp.Codec.Scalars.{c1g2_tag_inventory_state_unaware_filter_action_header}

pub record C1g2TagInventoryMask : Type 0 where
  pub memory_bank : ℕ
  pub most_significant_bit : ℕ
  pub tag_mask_num_bits : ℕ
  pub tag_mask : List ℕ

-- `C1G2TagInventoryMask.getHeader` and `EncodeFields`
unfoldable pub c1g2_tag_inventory_mask_header : C1g2TagInventoryMask → ParamHeader
c1g2_tag_inventory_mask_header p =
    header param_c1g2_tag_inventory_mask (u16 (9 + bit_bytes p.tag_mask_num_bits))
      ((u8 (p.memory_bank * 2 ^ 6) ∷ [])
        ++ be16 p.most_significant_bit
        ++ be16 p.tag_mask_num_bits
        ++ p.tag_mask)
      nil

-- `C1G2TagInventoryMask.UnmarshalBinary`
unfoldable pub unmarshal_c1g2_tag_inventory_mask : List ℕ → Outcome CodecError C1g2TagInventoryMask
unmarshal_c1g2_tag_inventory_mask bytes = do
  has_enough_bytes param_c1g2_tag_inventory_mask 5 (length bytes) false
  b0 ← byte_at 0 bytes
  most_significant_bit ← uint16_at 1 bytes
  tag_mask_num_bits ← uint16_at 3 bytes
  (tag_mask, rest) ← bit_array tag_mask_num_bits 5 bytes
  finished rest (record {
    memory_bank = b0 / 2 ^ 6;
    most_significant_bit = most_significant_bit;
    tag_mask_num_bits = tag_mask_num_bits;
    tag_mask = tag_mask;
  })

pub record C1g2TagInventoryStateAwareFilterAction : Type 0 where
  pub target : ℕ
  pub filter_action : ℕ

-- `C1G2TagInventoryStateAwareFilterAction.getHeader` and `EncodeFields`
unfoldable pub c1g2_tag_inventory_state_aware_filter_action_header :
    C1g2TagInventoryStateAwareFilterAction → ParamHeader
c1g2_tag_inventory_state_aware_filter_action_header p =
    header param_c1g2_tag_inventory_state_aware_filter_action 6
      (u8 p.target ∷ u8 p.filter_action ∷ []) nil

-- `C1G2TagInventoryStateAwareFilterAction.UnmarshalBinary`
unfoldable pub unmarshal_c1g2_tag_inventory_state_aware_filter_action :
    List ℕ → Outcome CodecError C1g2TagInventoryStateAwareFilterAction
unmarshal_c1g2_tag_inventory_state_aware_filter_action bytes = do
  has_enough_bytes param_c1g2_tag_inventory_state_aware_filter_action 2 (length bytes) true
  target ← byte_at 0 bytes
  filter_action ← byte_at 1 bytes
  ok (record { target = target; filter_action = filter_action })

pub record C1g2Filter : Type 0 where
  pub truncate_action : ℕ
  pub tag_inventory_mask : C1g2TagInventoryMask
  pub aware_filter_action : Option C1g2TagInventoryStateAwareFilterAction
  pub unaware_filter_action : Option ℕ

-- `C1G2Filter.getHeader` and `EncodeFields`
unfoldable pub c1g2_filter_header : C1g2Filter → ParamHeader
c1g2_filter_header p =
    let subs : ParamHeaders =
      one (c1g2_tag_inventory_mask_header p.tag_inventory_mask)
      +++ maybe c1g2_tag_inventory_state_aware_filter_action_header p.aware_filter_action
      +++ maybe c1g2_tag_inventory_state_unaware_filter_action_header p.unaware_filter_action
      +++ nil in
    header param_c1g2_filter (add_sizes 5 subs) ((u8 (p.truncate_action * 2 ^ 6) ∷ [])) subs

unfoldable pub c1g2_filter_group1 : Cases C1g2Filter
c1g2_filter_group1 pt p =
    if pt == param_c1g2_tag_inventory_state_aware_filter_action
    then into (within unmarshal_c1g2_tag_inventory_state_aware_filter_action)
        (λ x. record p { aware_filter_action = some x })
    else if pt == param_c1g2_tag_inventory_state_unaware_filter_action
    then into (beyond uint8) (λ x. record p { unaware_filter_action = some x })
    else none

-- `C1G2Filter.UnmarshalBinary`
unfoldable pub unmarshal_c1g2_filter : List ℕ → Outcome CodecError C1g2Filter
unmarshal_c1g2_filter bytes = do
  has_enough_bytes param_c1g2_filter 10 (length bytes) false
  b0 ← byte_at 0 bytes
  rest ← slice_from 1 bytes
  (tag_inventory_mask, rest2) ←
      required param_c1g2_tag_inventory_mask (within unmarshal_c1g2_tag_inventory_mask) rest
  let p : C1g2Filter = record {
    truncate_action = b0 / 2 ^ 6;
    tag_inventory_mask = tag_inventory_mask;
    aware_filter_action = none;
    unaware_filter_action = none;
  }
  unless_empty rest2 p
      (do (p3, rest3) ← group (suc (length rest2)) c1g2_filter_group1 p rest2; finished rest3 p3)
