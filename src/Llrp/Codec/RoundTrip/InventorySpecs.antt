-- ===== src/Llrp/Codec/RoundTrip/InventorySpecs.antt =====
-- `AISpec`, an inventory by some antennas.
use device_rfid_llrp_go.Prelude.{
  ℕ, suc, ◌+◌, ◌*◌, ◌≤◌, ◌≡◌, refl, List, [], ◌∷◌, ◌++◌, arith, length, ok, IsU8, IsU16, All,
  length-append,
}
use device_rfid_llrp_go.Llrp.Bytes.{be16}
use device_rfid_llrp_go.Llrp.Params.{ParamHeaders, nil, has_enough_bytes, encode_params, is_tv}
use device_rfid_llrp_go.Llrp.ParamTypes.{param_ai_spec, param_inventory_parameter_spec}
use device_rfid_llrp_go.Llrp.Fields.{
  uint16_array, required, group, u8, each_be16, ◌+++◌, one, every,
}
use device_rfid_llrp_go.Llrp.Fields.Coded.{
  body, Fits, All-map, Coding, IsRead, coding, IsCoded, coding-IsRead, length-encode_params-cons,
  required-cons,
}
use device_rfid_llrp_go.Llrp.Fields.Groups.{
  Gives-foreign, Gives-nil, Gives-every, every-IsForeign, group-empty,
}
use device_rfid_llrp_go.Llrp.Fields.Sized.{IsWritten-subs, IsWritten-sum, AllSized-every}
use device_rfid_llrp_go.Llrp.Fields.Arrays.{uint16_array-written, length-each_be16}
use device_rfid_llrp_go.Llrp.Codec.Identities.{custom_header}
use device_rfid_llrp_go.Llrp.Codec.Antennas.{antenna_configuration_header}
use device_rfid_llrp_go.Llrp.Codec.StopTriggers.{ai_spec_stop_trigger_header}
use device_rfid_llrp_go.Llrp.Codec.InventorySpecs.{
  InventoryParameterSpec, inventory_parameter_spec_header, unmarshal_inventory_parameter_spec,
  inventory_parameter_spec_group1, AiSpec, ai_spec_header, unmarshal_ai_spec, ai_spec_group1,
  ai_spec_group2,
}
use device_rfid_llrp_go.Llrp.Codec.RoundTrip.Identities.{IsCustom, custom_coding, custom-IsRead}
use device_rfid_llrp_go.Llrp.Codec.RoundTrip.Antennas.{
  IsAntennaConfiguration, antenna_configuration_coding, antenna_configuration-IsRead,
}
use device_rfid_llrp_go.Llrp.Codec.RoundTrip.StopTriggers.{
  IsAiSpecStopTrigger, ai_spec_stop_trigger_coding, ai_spec_stop_trigger_header-IsCoded,
  ai_spec_stop_trigger_enough, ai_spec_stop_trigger-IsRead,
}

abbrev pub IsInventoryParameterSpec : InventoryParameterSpec → Type 0
IsInventoryParameterSpec p =
    IsU16 p.inventory_parameter_spec_id
    × IsU8 p.air_protocol_id
    × All IsAntennaConfiguration p.antenna_configurations
    × All IsCustom p.custom
    × Fits (inventory_parameter_spec_header p)

abbrev pub inventory_parameter_spec_coding : Coding InventoryParameterSpec
inventory_parameter_spec_coding =
    coding param_inventory_parameter_spec inventory_parameter_spec_header
      unmarshal_inventory_parameter_spec

inventory_parameter_spec_read :
    (p : InventoryParameterSpec) (rest : List ℕ)
    → IsU16 p.inventory_parameter_spec_id
    → IsU8 p.air_protocol_id
    → 3 ≤ length ((be16 p.inventory_parameter_spec_id ++ (u8 p.air_protocol_id ∷ [])) ++ rest)
    → group
        (suc (length rest))
        inventory_parameter_spec_group1
        (record p { antenna_configurations = []; custom = [] })
        rest
      ≡ ok (p, [])
    → unmarshal_inventory_parameter_spec
        ((be16 p.inventory_parameter_spec_id ++ (u8 p.air_protocol_id ∷ [])) ++ rest)
      ≡ ok p
unfolding unmarshal_inventory_parameter_spec has_enough_bytes
inventory_parameter_spec_read p rest b0 b1 h1 h2 = ground (
  arith,
  group-empty inventory_parameter_spec_group1 rest []
      (record p { antenna_configurations = []; custom = [] }) (p) h2,
)

pub inventory_parameter_spec_header-IsCoded :
    (p : InventoryParameterSpec)
    → IsInventoryParameterSpec p
    → IsCoded param_inventory_parameter_spec inventory_parameter_spec_header
        unmarshal_inventory_parameter_spec p
unfolding inventory_parameter_spec_header is_tv inventory_parameter_spec_group1
inventory_parameter_spec_header-IsCoded p (b0, b1, c0, c1, fits) =
    let i0 : All (IsRead antenna_configuration_coding) p.antenna_configurations =
      All-map antenna_configuration-IsRead p.antenna_configurations c0 in
    let i1 : All (IsRead custom_coding) p.custom = All-map custom-IsRead p.custom c1 in
    let k1 : ParamHeaders = every custom_header p.custom +++ nil in
    let k0 : ParamHeaders = every antenna_configuration_header p.antenna_configurations +++ k1 in
    (
      IsWritten-subs param_inventory_parameter_spec 7
          (be16 p.inventory_parameter_spec_id ++ (u8 p.air_protocol_id ∷ [])) _ refl (omega arith)
          refl
          (AllSized-every antenna_configuration_coding p.antenna_configurations _ i0
            (AllSized-every custom_coding p.custom _ i1 tt))
          fits,
      refl,
      inventory_parameter_spec_read p (encode_params k0) b0 b1 (omega (arith)) (
          (Gives-every inventory_parameter_spec_group1 antenna_configuration_coding
              (λ o. record p { antenna_configurations = o; custom = [] }) (λ _. refl)
              p.antenna_configurations [] _ _ i0
              (Gives-every inventory_parameter_spec_group1 custom_coding
                (λ o. record p { custom = o }) (λ _. refl) p.custom [] _ _ i1
                (Gives-nil inventory_parameter_spec_group1 p)))
            _ (omega arith)),
    )

pub inventory_parameter_spec-IsRead :
    (x : InventoryParameterSpec)
    → IsInventoryParameterSpec x
    → IsRead inventory_parameter_spec_coding x
inventory_parameter_spec-IsRead x v =
    coding-IsRead param_inventory_parameter_spec inventory_parameter_spec_header
      unmarshal_inventory_parameter_spec x (inventory_parameter_spec_header-IsCoded x v)

abbrev pub IsAiSpec : AiSpec → Type 0
IsAiSpec p =
    All IsU16 p.antenna_ids
    × IsAiSpecStopTrigger p.stop_trigger
    × All IsInventoryParameterSpec p.inventory_parameter_specs
    × All IsCustom p.custom
    × Fits (ai_spec_header p)

abbrev pub ai_spec_coding : Coding AiSpec
ai_spec_coding = coding param_ai_spec ai_spec_header unmarshal_ai_spec

ai_spec_read :
    (p : AiSpec) (rest rest2 rest3 : List ℕ)
    → All IsU16 p.antenna_ids
    → 9 ≤ length ((be16 (length p.antenna_ids) ++ each_be16 p.antenna_ids) ++ rest)
    → uint16_array 0 ((be16 (length p.antenna_ids)) ++ (each_be16 p.antenna_ids) ++ (rest))
      ≡ ok (p.antenna_ids, (rest))
    → 4 ≤ length rest
    → required (ai_spec_stop_trigger_coding.of_type) (ai_spec_stop_trigger_coding.read) rest
      ≡ ok (p.stop_trigger, rest2)
    → group
        (suc (length rest2))
        ai_spec_group1
        (record p { inventory_parameter_specs = []; custom = [] })
        rest2
      ≡ ok (record p { custom = [] }, rest3)
    → group (suc (length rest3)) ai_spec_group2 (record p { custom = [] }) rest3 ≡ ok (p, [])
    → unmarshal_ai_spec ((be16 (length p.antenna_ids) ++ each_be16 p.antenna_ids) ++ rest) ≡ ok p
unfolding unmarshal_ai_spec has_enough_bytes
ai_spec_read p rest rest2 rest3 b0 h1 h2 h3 h4 h5 h6 = ground (
  arith,
  group-empty ai_spec_group1 rest2 rest3 (record p { inventory_parameter_specs = []; custom = [] })
      (record p { custom = [] }) h5,
  group-empty ai_spec_group2 rest3 [] (record p { custom = [] }) (p) h6,
)

pub ai_spec_header-IsCoded :
    (p : AiSpec) → IsAiSpec p → IsCoded param_ai_spec ai_spec_header unmarshal_ai_spec p
unfolding ai_spec_header is_tv ai_spec_group1 ai_spec_group2
ai_spec_header-IsCoded p (b0, c0, c1, c2, fits) =
    let i0 = ai_spec_stop_trigger-IsRead p.stop_trigger c0 in
    let i1 : All (IsRead inventory_parameter_spec_coding) p.inventory_parameter_specs =
      All-map inventory_parameter_spec-IsRead p.inventory_parameter_specs c1 in
    let i2 : All (IsRead custom_coding) p.custom = All-map custom-IsRead p.custom c2 in
    let k2 : ParamHeaders = every custom_header p.custom +++ nil in
    let k1 : ParamHeaders =
      every inventory_parameter_spec_header p.inventory_parameter_specs +++ k2 in
    let k0 : ParamHeaders = one (ai_spec_stop_trigger_header p.stop_trigger) +++ k1 in
    (
      IsWritten-sum param_ai_spec (6 + length p.antenna_ids * 2)
          (be16 (length p.antenna_ids) ++ each_be16 p.antenna_ids) _ refl (omega arith)
          (omega (
            arith,
            length-each_be16 p.antenna_ids,
            length-append (each_be16 p.antenna_ids) ((encode_params k0)),
          ))
          (
            i0.0.0,
            (AllSized-every inventory_parameter_spec_coding p.inventory_parameter_specs _ i1
                (AllSized-every custom_coding p.custom _ i2 tt)),
          )
          fits,
      refl,
      ai_spec_read p (encode_params k0) (encode_params k1) (encode_params k2) b0
          (omega (
            arith,
            length-encode_params-cons (ai_spec_stop_trigger_header p.stop_trigger) k1 (i0.0),
            ai_spec_stop_trigger_enough (body (ai_spec_stop_trigger_header p.stop_trigger))
                p.stop_trigger ((ai_spec_stop_trigger_header-IsCoded p.stop_trigger c0).2),
            length-each_be16 p.antenna_ids,
            length-append (each_be16 p.antenna_ids) ((encode_params k0)),
          ))
          (uint16_array-written ([]) p.antenna_ids (((encode_params k0))) b0 (
            omega (
              arith,
              length-each_be16 p.antenna_ids,
              length-append (each_be16 p.antenna_ids) ((encode_params k0)),
            )))
          (omega (
            arith,
            length-encode_params-cons (ai_spec_stop_trigger_header p.stop_trigger) k1 (i0.0),
            length-each_be16 p.antenna_ids,
            length-append (each_be16 p.antenna_ids) ((encode_params k0)),
          ))
          (required-cons ai_spec_stop_trigger_coding p.stop_trigger i0 k1)
          ((Gives-every ai_spec_group1 inventory_parameter_spec_coding
              (λ o. record p { inventory_parameter_specs = o; custom = [] }) (λ _. refl)
              p.inventory_parameter_specs [] _ _ i1
              (Gives-foreign ai_spec_group1 (record p { custom = [] }) _
                (every-IsForeign ai_spec_group1 (record p { custom = [] }) custom_coding p.custom _
                  i2 refl tt)))
            _ (omega arith))
          ((Gives-every ai_spec_group2 custom_coding (λ o. record p { custom = o }) (λ _. refl)
              p.custom [] _ _ i2 (Gives-nil ai_spec_group2 p))
            _ (omega arith)),
    )

pub ai_spec-IsRead : (x : AiSpec) → IsAiSpec x → IsRead ai_spec_coding x
ai_spec-IsRead x v =
    coding-IsRead param_ai_spec ai_spec_header unmarshal_ai_spec x (ai_spec_header-IsCoded x v)
