-- ===== src/Llrp/Codec/RoundTrip/Filters.antt =====
-- `C1G2Filter` and its parts.
use device_rfid_llrp_go.Prelude.{
  ℕ, suc, ◌+◌, ◌*◌, ◌^◌, ◌≤◌, ◌<◌, ◌≡◌, refl, false, none, List, [], ◌∷◌, ◌++◌, arith, length, ok,
  IsU8, IsU16, length-append,
}
use device_rfid_llrp_go.Llrp.Bytes.{be16}
use device_rfid_llrp_go.Llrp.Params.{ParamHeaders, nil, has_enough_bytes, encode_params, is_tv}
use device_rfid_llrp_go.Llrp.ParamTypes.{
  param_c1g2_filter, param_c1g2_tag_inventory_mask,
  param_c1g2_tag_inventory_state_aware_filter_action,
}
use device_rfid_llrp_go.Llrp.Fields.{bit_bytes, bit_array, required, group, u8, ◌+++◌, one, maybe}
use device_rfid_llrp_go.Llrp.Fields.Coded.{
  body, Fits, IfSome, IfSome-map, Coding, IsRead, coding, IsCoded, coding-IsRead,
  length-encode_params-cons, enough-of-ok, required-cons,
}
use device_rfid_llrp_go.Llrp.Fields.Groups.{Gives-nil, Gives-maybe, group-empty}
use device_rfid_llrp_go.Llrp.Fields.Sized.{IsWritten-subs, IsWritten-leaf, AllSized-maybe}
use device_rfid_llrp_go.Llrp.Fields.Arrays.{bit_array-written}
use device_rfid_llrp_go.Llrp.Codec.Scalars.{c1g2_tag_inventory_state_unaware_filter_action_header}
use device_rfid_llrp_go.Llrp.Codec.Filters.{
  C1g2TagInventoryMask, c1g2_tag_inventory_mask_header, unmarshal_c1g2_tag_inventory_mask,
  C1g2TagInventoryStateAwareFilterAction, c1g2_tag_inventory_state_aware_filter_action_header,
  unmarshal_c1g2_tag_inventory_state_aware_filter_action, C1g2Filter, c1g2_filter_header,
  unmarshal_c1g2_filter, c1g2_filter_group1,
}
use device_rfid_llrp_go.Llrp.Codec.RoundTrip.Scalars.{
  c1g2_tag_inventory_state_unaware_filter_action_coding,
  c1g2_tag_inventory_state_unaware_filter_action-IsRead,
}

abbrev pub IsC1g2TagInventoryMask : C1g2TagInventoryMask → Type 0
IsC1g2TagInventoryMask p =
    (p.memory_bank < 4)
    × IsU16 p.most_significant_bit
    × IsU16 p.tag_mask_num_bits
    × (length p.tag_mask ≡ bit_bytes p.tag_mask_num_bits)
    × Fits (c1g2_tag_inventory_mask_header p)

abbrev pub c1g2_tag_inventory_mask_coding : Coding C1g2TagInventoryMask
c1g2_tag_inventory_mask_coding =
    coding param_c1g2_tag_inventory_mask c1g2_tag_inventory_mask_header
      unmarshal_c1g2_tag_inventory_mask

c1g2_tag_inventory_mask_read :
    (p : C1g2TagInventoryMask)
    → (p.memory_bank < 4)
    → IsU16 p.most_significant_bit
    → IsU16 p.tag_mask_num_bits
    → (length p.tag_mask ≡ bit_bytes p.tag_mask_num_bits)
    → 5
      ≤ length (
          ((u8 (p.memory_bank * 2 ^ 6) ∷ [])
            ++ be16 p.most_significant_bit
            ++ be16 p.tag_mask_num_bits
            ++ p.tag_mask)
          ++ [])
    → bit_array p.tag_mask_num_bits 5 (
        ((u8 (p.memory_bank * 2 ^ 6) ∷ []))
        ++ (be16 p.most_significant_bit)
        ++ (be16 p.tag_mask_num_bits)
        ++ (p.tag_mask)
        ++ ([]))
      ≡ ok (p.tag_mask, ([]))
    → unmarshal_c1g2_tag_inventory_mask (
        ((u8 (p.memory_bank * 2 ^ 6) ∷ [])
          ++ be16 p.most_significant_bit
          ++ be16 p.tag_mask_num_bits
          ++ p.tag_mask)
        ++ [])
      ≡ ok p
unfolding unmarshal_c1g2_tag_inventory_mask has_enough_bytes
c1g2_tag_inventory_mask_read p b0 b1 b2 b3 h1 h2 = ground (arith)

pub c1g2_tag_inventory_mask_header-IsCoded :
    (p : C1g2TagInventoryMask)
    → IsC1g2TagInventoryMask p
    → IsCoded param_c1g2_tag_inventory_mask c1g2_tag_inventory_mask_header
        unmarshal_c1g2_tag_inventory_mask p
unfolding c1g2_tag_inventory_mask_header is_tv encode_params
c1g2_tag_inventory_mask_header-IsCoded p (b0, b1, b2, b3, fits) = (
  IsWritten-leaf param_c1g2_tag_inventory_mask (9 + bit_bytes p.tag_mask_num_bits)
      ((u8 (p.memory_bank * 2 ^ 6) ∷ [])
        ++ be16 p.most_significant_bit
        ++ be16 p.tag_mask_num_bits
        ++ p.tag_mask)
      refl (omega arith) (omega (arith, length-append (p.tag_mask) ([]))) fits,
  refl,
  c1g2_tag_inventory_mask_read p b0 b1 b2 b3 (omega (arith, length-append (p.tag_mask) ([]))) (
      bit_array-written
        (((u8 (p.memory_bank * 2 ^ 6) ∷ []))
          ++ (be16 p.most_significant_bit)
          ++ (be16 p.tag_mask_num_bits))
        p.tag_mask (([])) p.tag_mask_num_bits b3),
)

pub c1g2_tag_inventory_mask_enough :
    (bytes : List ℕ) (p : C1g2TagInventoryMask)
    → unmarshal_c1g2_tag_inventory_mask bytes ≡ ok p
    → 5 ≤ length bytes
unfolding unmarshal_c1g2_tag_inventory_mask
c1g2_tag_inventory_mask_enough bytes p e =
    enough-of-ok param_c1g2_tag_inventory_mask 5 (length bytes) false _ p e

pub c1g2_tag_inventory_mask-IsRead :
    (x : C1g2TagInventoryMask) → IsC1g2TagInventoryMask x → IsRead c1g2_tag_inventory_mask_coding x
c1g2_tag_inventory_mask-IsRead x v =
    coding-IsRead param_c1g2_tag_inventory_mask c1g2_tag_inventory_mask_header
      unmarshal_c1g2_tag_inventory_mask x (c1g2_tag_inventory_mask_header-IsCoded x v)

abbrev pub IsC1g2TagInventoryStateAwareFilterAction :
    C1g2TagInventoryStateAwareFilterAction → Type 0
IsC1g2TagInventoryStateAwareFilterAction p = IsU8 p.target × IsU8 p.filter_action

abbrev pub c1g2_tag_inventory_state_aware_filter_action_coding :
    Coding C1g2TagInventoryStateAwareFilterAction
c1g2_tag_inventory_state_aware_filter_action_coding =
    coding param_c1g2_tag_inventory_state_aware_filter_action
      c1g2_tag_inventory_state_aware_filter_action_header
      unmarshal_c1g2_tag_inventory_state_aware_filter_action

pub c1g2_tag_inventory_state_aware_filter_action_header-IsCoded :
    (p : C1g2TagInventoryStateAwareFilterAction)
    → IsC1g2TagInventoryStateAwareFilterAction p
    → IsCoded param_c1g2_tag_inventory_state_aware_filter_action
        c1g2_tag_inventory_state_aware_filter_action_header
        unmarshal_c1g2_tag_inventory_state_aware_filter_action p
unfolding unmarshal_c1g2_tag_inventory_state_aware_filter_action
    c1g2_tag_inventory_state_aware_filter_action_header has_enough_bytes encode_params is_tv
c1g2_tag_inventory_state_aware_filter_action_header-IsCoded p v = ground arith

pub c1g2_tag_inventory_state_aware_filter_action-IsRead :
    (x : C1g2TagInventoryStateAwareFilterAction)
    → IsC1g2TagInventoryStateAwareFilterAction x
    → IsRead c1g2_tag_inventory_state_aware_filter_action_coding x
c1g2_tag_inventory_state_aware_filter_action-IsRead x v =
    coding-IsRead param_c1g2_tag_inventory_state_aware_filter_action
      c1g2_tag_inventory_state_aware_filter_action_header
      unmarshal_c1g2_tag_inventory_state_aware_filter_action x
      (c1g2_tag_inventory_state_aware_filter_action_header-IsCoded x v)

abbrev pub IsC1g2Filter : C1g2Filter → Type 0
IsC1g2Filter p =
    (p.truncate_action < 4)
    × IsC1g2TagInventoryMask p.tag_inventory_mask
    × IfSome IsC1g2TagInventoryStateAwareFilterAction p.aware_filter_action
    × IfSome IsU8 p.unaware_filter_action
    × Fits (c1g2_filter_header p)

abbrev pub c1g2_filter_coding : Coding C1g2Filter
c1g2_filter_coding = coding param_c1g2_filter c1g2_filter_header unmarshal_c1g2_filter

c1g2_filter_read :
    (p : C1g2Filter) (rest rest2 : List ℕ)
    → (p.truncate_action < 4)
    → 10 ≤ length (((u8 (p.truncate_action * 2 ^ 6) ∷ [])) ++ rest)
    → required (c1g2_tag_inventory_mask_coding.of_type) (c1g2_tag_inventory_mask_coding.read) rest
      ≡ ok (p.tag_inventory_mask, rest2)
    → group
        (suc (length rest2))
        c1g2_filter_group1
        (record p { aware_filter_action = none; unaware_filter_action = none })
        rest2
      ≡ ok (p, [])
    → unmarshal_c1g2_filter (((u8 (p.truncate_action * 2 ^ 6) ∷ [])) ++ rest) ≡ ok p
unfolding unmarshal_c1g2_filter has_enough_bytes
c1g2_filter_read p rest rest2 b0 h1 h2 h3 = ground (
  arith,
  group-empty c1g2_filter_group1 rest2 []
      (record p { aware_filter_action = none; unaware_filter_action = none }) (p) h3,
)

pub c1g2_filter_header-IsCoded :
    (p : C1g2Filter)
    → IsC1g2Filter p
    → IsCoded param_c1g2_filter c1g2_filter_header unmarshal_c1g2_filter p
unfolding c1g2_filter_header is_tv c1g2_filter_group1
c1g2_filter_header-IsCoded p (b0, c0, c1, c2, fits) =
    let i0 = c1g2_tag_inventory_mask-IsRead p.tag_inventory_mask c0 in
    let i1 : IfSome (IsRead c1g2_tag_inventory_state_aware_filter_action_coding)
        p.aware_filter_action =
      IfSome-map c1g2_tag_inventory_state_aware_filter_action-IsRead p.aware_filter_action c1 in
    let i2 : IfSome (IsRead c1g2_tag_inventory_state_unaware_filter_action_coding)
        p.unaware_filter_action =
      IfSome-map c1g2_tag_inventory_state_unaware_filter_action-IsRead p.unaware_filter_action c2 in
    let k2 : ParamHeaders =
      maybe c1g2_tag_inventory_state_unaware_filter_action_header p.unaware_filter_action +++ nil in
    let k1 : ParamHeaders =
      maybe c1g2_tag_inventory_state_aware_filter_action_header p.aware_filter_action +++ k2 in
    let k0 : ParamHeaders = one (c1g2_tag_inventory_mask_header p.tag_inventory_mask) +++ k1 in
    (
      IsWritten-subs param_c1g2_filter 5 ((u8 (p.truncate_action * 2 ^ 6) ∷ [])) _ refl
          (omega arith) refl
          (
            i0.0.0,
            (AllSized-maybe c1g2_tag_inventory_state_aware_filter_action_coding
                p.aware_filter_action _ i1
                (AllSized-maybe c1g2_tag_inventory_state_unaware_filter_action_coding
                  p.unaware_filter_action _ i2 tt)),
          )
          fits,
      refl,
      c1g2_filter_read p (encode_params k0) (encode_params k1) b0
          (omega (
            arith,
            length-encode_params-cons (c1g2_tag_inventory_mask_header p.tag_inventory_mask) k1
                (i0.0),
            c1g2_tag_inventory_mask_enough
                (body (c1g2_tag_inventory_mask_header p.tag_inventory_mask)) p.tag_inventory_mask
                ((c1g2_tag_inventory_mask_header-IsCoded p.tag_inventory_mask c0).2),
          ))
          (required-cons c1g2_tag_inventory_mask_coding p.tag_inventory_mask i0 k1)
          ((Gives-maybe c1g2_filter_group1 c1g2_tag_inventory_state_aware_filter_action_coding
              (λ o. record p { aware_filter_action = o; unaware_filter_action = none })
              p.aware_filter_action _ _ refl i1
              (Gives-maybe c1g2_filter_group1 c1g2_tag_inventory_state_unaware_filter_action_coding
                (λ o. record p { unaware_filter_action = o }) p.unaware_filter_action _ _ refl i2
                (Gives-nil c1g2_filter_group1 p)))
            _ (omega arith)),
    )

pub c1g2_filter-IsRead : (x : C1g2Filter) → IsC1g2Filter x → IsRead c1g2_filter_coding x
c1g2_filter-IsRead x v =
    coding-IsRead param_c1g2_filter c1g2_filter_header unmarshal_c1g2_filter x
      (c1g2_filter_header-IsCoded x v)
