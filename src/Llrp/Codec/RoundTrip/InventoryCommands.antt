-- ===== src/Llrp/Codec/RoundTrip/InventoryCommands.antt =====
-- `C1G2InventoryCommand`.
use device_rfid_llrp_go.Prelude.{
  ℕ, suc, ◌≤◌, ◌≡◌, refl, none, List, [], ◌∷◌, ◌++◌, arith, length, ok, All,
}
use device_rfid_llrp_go.Llrp.Params.{ParamHeaders, nil, has_enough_bytes, encode_params, is_tv}
use device_rfid_llrp_go.Llrp.ParamTypes.{param_c1g2_inventory_command}
use device_rfid_llrp_go.Llrp.Fields.{group, b2b, ◌+++◌, every, maybe}
use device_rfid_llrp_go.Llrp.Fields.Coded.{
  Fits, IfSome, IfSome-map, All-map, Coding, IsRead, coding, IsCoded, coding-IsRead,
}
use device_rfid_llrp_go.Llrp.Fields.Groups.{
  Gives-foreign, Gives-nil, Gives-every, Gives-maybe, every-IsForeign, maybe-IsForeign, group-empty,
}
use device_rfid_llrp_go.Llrp.Fields.Sized.{IsWritten-subs, AllSized-every, AllSized-maybe}
use device_rfid_llrp_go.Llrp.Codec.Identities.{custom_header}
use device_rfid_llrp_go.Llrp.Codec.Filters.{c1g2_filter_header}
use device_rfid_llrp_go.Llrp.Codec.Inventory.{
  c1g2_rf_control_header, c1g2_singulation_control_header,
}
use device_rfid_llrp_go.Llrp.Codec.InventoryCommands.{
  C1g2InventoryCommand, c1g2_inventory_command_header, unmarshal_c1g2_inventory_command,
  c1g2_inventory_command_group1, c1g2_inventory_command_group2, c1g2_inventory_command_group3,
}
use device_rfid_llrp_go.Llrp.Codec.RoundTrip.Identities.{IsCustom, custom_coding, custom-IsRead}
use device_rfid_llrp_go.Llrp.Codec.RoundTrip.Filters.{
  IsC1g2Filter, c1g2_filter_coding, c1g2_filter-IsRead,
}
use device_rfid_llrp_go.Llrp.Codec.RoundTrip.Inventory.{
  IsC1g2RfControl, c1g2_rf_control_coding, c1g2_rf_control-IsRead, IsC1g2SingulationControl,
  c1g2_singulation_control_coding, c1g2_singulation_control-IsRead,
}

abbrev pub IsC1g2InventoryCommand : C1g2InventoryCommand → Type 0
IsC1g2InventoryCommand p =
    All IsC1g2Filter p.filters
    × IfSome IsC1g2RfControl p.rf_control
    × IfSome IsC1g2SingulationControl p.singulation_control
    × All IsCustom p.custom
    × Fits (c1g2_inventory_command_header p)

abbrev pub c1g2_inventory_command_coding : Coding C1g2InventoryCommand
c1g2_inventory_command_coding =
    coding param_c1g2_inventory_command c1g2_inventory_command_header
      unmarshal_c1g2_inventory_command

c1g2_inventory_command_read :
    (p : C1g2InventoryCommand) (rest rest2 rest3 : List ℕ)
    → 1 ≤ length (((b2b p.tag_inventory_state_aware 7 ∷ [])) ++ rest)
    → group
        (suc (length rest))
        c1g2_inventory_command_group1
        (record p { filters = []; rf_control = none; singulation_control = none; custom = [] })
        rest
      ≡ ok (record p { rf_control = none; singulation_control = none; custom = [] }, rest2)
    → group
        (suc (length rest2))
        c1g2_inventory_command_group2
        (record p { rf_control = none; singulation_control = none; custom = [] })
        rest2
      ≡ ok (record p { custom = [] }, rest3)
    → group (suc (length rest3)) c1g2_inventory_command_group3 (record p { custom = [] }) rest3
      ≡ ok (p, [])
    → unmarshal_c1g2_inventory_command (((b2b p.tag_inventory_state_aware 7 ∷ [])) ++ rest) ≡ ok p
unfolding unmarshal_c1g2_inventory_command has_enough_bytes
c1g2_inventory_command_read p rest rest2 rest3 h1 h2 h3 h4 = ground (
  arith,
  group-empty c1g2_inventory_command_group1 rest rest2
      (record p { filters = []; rf_control = none; singulation_control = none; custom = [] })
      (record p { rf_control = none; singulation_control = none; custom = [] }) h2,
  group-empty c1g2_inventory_command_group2 rest2 rest3
      (record p { rf_control = none; singulation_control = none; custom = [] })
      (record p { custom = [] }) h3,
  group-empty c1g2_inventory_command_group3 rest3 [] (record p { custom = [] }) (p) h4,
)

pub c1g2_inventory_command_header-IsCoded :
    (p : C1g2InventoryCommand)
    → IsC1g2InventoryCommand p
    → IsCoded param_c1g2_inventory_command c1g2_inventory_command_header
        unmarshal_c1g2_inventory_command p
unfolding c1g2_inventory_command_header is_tv c1g2_inventory_command_group1
    c1g2_inventory_command_group2 c1g2_inventory_command_group3
c1g2_inventory_command_header-IsCoded p (c0, c1, c2, c3, fits) =
    let i0 : All (IsRead c1g2_filter_coding) p.filters = All-map c1g2_filter-IsRead p.filters c0 in
    let i1 : IfSome (IsRead c1g2_rf_control_coding) p.rf_control =
      IfSome-map c1g2_rf_control-IsRead p.rf_control c1 in
    let i2 : IfSome (IsRead c1g2_singulation_control_coding) p.singulation_control =
      IfSome-map c1g2_singulation_control-IsRead p.singulation_control c2 in
    let i3 : All (IsRead custom_coding) p.custom = All-map custom-IsRead p.custom c3 in
    let k3 : ParamHeaders = every custom_header p.custom +++ nil in
    let k2 : ParamHeaders = maybe c1g2_singulation_control_header p.singulation_control +++ k3 in
    let k1 : ParamHeaders = maybe c1g2_rf_control_header p.rf_control +++ k2 in
    let k0 : ParamHeaders = every c1g2_filter_header p.filters +++ k1 in
    (
      IsWritten-subs param_c1g2_inventory_command 5 ((b2b p.tag_inventory_state_aware 7 ∷ [])) _
          refl (omega arith) refl
          (AllSized-every c1g2_filter_coding p.filters _ i0 (
            AllSized-maybe c1g2_rf_control_coding p.rf_control _ i1 (
              AllSized-maybe c1g2_singulation_control_coding p.singulation_control _ i2
                (AllSized-every custom_coding p.custom _ i3 tt))))
          fits,
      refl,
      c1g2_inventory_command_read p (encode_params k0) (encode_params k1) (encode_params k3)
          (omega (arith))
          ((Gives-every c1g2_inventory_command_group1 c1g2_filter_coding
              (λ o. record p {
                filters = o;
                rf_control = none;
                singulation_control = none;
                custom = [];
              })
              (λ _. refl) p.filters [] _ _ i0
              (Gives-foreign c1g2_inventory_command_group1
                (record p { rf_control = none; singulation_control = none; custom = [] }) _
                (maybe-IsForeign c1g2_inventory_command_group1
                  (record p { rf_control = none; singulation_control = none; custom = [] })
                  c1g2_rf_control_coding p.rf_control _ i1 refl
                  (maybe-IsForeign c1g2_inventory_command_group1
                    (record p { rf_control = none; singulation_control = none; custom = [] })
                    c1g2_singulation_control_coding p.singulation_control _ i2 refl
                    (every-IsForeign c1g2_inventory_command_group1
                      (record p { rf_control = none; singulation_control = none; custom = [] })
                      custom_coding p.custom _ i3 refl tt)))))
            _ (omega arith))
          ((Gives-maybe c1g2_inventory_command_group2 c1g2_rf_control_coding
              (λ o. record p { rf_control = o; singulation_control = none; custom = [] })
              p.rf_control _ _ refl i1
              (Gives-maybe c1g2_inventory_command_group2 c1g2_singulation_control_coding
                (λ o. record p { singulation_control = o; custom = [] }) p.singulation_control _ _
                refl i2
                (Gives-foreign c1g2_inventory_command_group2 (record p { custom = [] }) _
                  (every-IsForeign c1g2_inventory_command_group2 (record p { custom = [] })
                    custom_coding p.custom _ i3 refl tt))))
            _ (omega arith))
          ((Gives-every c1g2_inventory_command_group3 custom_coding (λ o. record p { custom = o })
              (λ _. refl) p.custom [] _ _ i3 (Gives-nil c1g2_inventory_command_group3 p))
            _ (omega arith)),
    )

pub c1g2_inventory_command-IsRead :
    (x : C1g2InventoryCommand) → IsC1g2InventoryCommand x → IsRead c1g2_inventory_command_coding x
c1g2_inventory_command-IsRead x v =
    coding-IsRead param_c1g2_inventory_command c1g2_inventory_command_header
      unmarshal_c1g2_inventory_command x (c1g2_inventory_command_header-IsCoded x v)
