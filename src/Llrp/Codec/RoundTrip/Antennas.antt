-- ===== src/Llrp/Codec/RoundTrip/Antennas.antt =====
-- Antennas, ports and other parts of a configuration.
use device_rfid_llrp_go.Prelude.{
  ℕ, suc, ◌≤◌, ◌≡◌, refl, none, List, [], ◌++◌, arith, length, ok, IsU16, All,
}
use device_rfid_llrp_go.Llrp.Bytes.{be16}
use device_rfid_llrp_go.Llrp.Params.{ParamHeaders, nil, has_enough_bytes, encode_params, is_tv}
use device_rfid_llrp_go.Llrp.ParamTypes.{param_antenna_configuration, param_rf_transmitter}
use device_rfid_llrp_go.Llrp.Fields.{group, ◌+++◌, every, maybe}
use device_rfid_llrp_go.Llrp.Fields.Coded.{
  Fits, IfSome, IfSome-map, All-map, Coding, IsRead, coding, IsCoded, coding-IsRead,
}
use device_rfid_llrp_go.Llrp.Fields.Groups.{
  Gives-foreign, Gives-nil, Gives-every, Gives-maybe, every-IsForeign, group-empty,
}
use device_rfid_llrp_go.Llrp.Fields.Sized.{IsWritten-subs, AllSized-every, AllSized-maybe}
use device_rfid_llrp_go.Llrp.Codec.Scalars.{rf_receiver_header}
use device_rfid_llrp_go.Llrp.Codec.Identities.{custom_header}
use device_rfid_llrp_go.Llrp.Codec.InventoryCommands.{c1g2_inventory_command_header}
use device_rfid_llrp_go.Llrp.Codec.Antennas.{
  RfTransmitter, rf_transmitter_header, unmarshal_rf_transmitter, AntennaConfiguration,
  antenna_configuration_header, unmarshal_antenna_configuration, antenna_configuration_group1,
  antenna_configuration_group2,
}
use device_rfid_llrp_go.Llrp.Codec.RoundTrip.Scalars.{rf_receiver_coding, rf_receiver-IsRead}
use device_rfid_llrp_go.Llrp.Codec.RoundTrip.Identities.{IsCustom, custom_coding, custom-IsRead}
use device_rfid_llrp_go.Llrp.Codec.RoundTrip.InventoryCommands.{
  IsC1g2InventoryCommand, c1g2_inventory_command_coding, c1g2_inventory_command-IsRead,
}

abbrev pub IsRfTransmitter : RfTransmitter → Type 0
IsRfTransmitter p = IsU16 p.hop_table_id × IsU16 p.channel_index × IsU16 p.transmit_power_index

abbrev pub rf_transmitter_coding : Coding RfTransmitter
rf_transmitter_coding = coding param_rf_transmitter rf_transmitter_header unmarshal_rf_transmitter

pub rf_transmitter_header-IsCoded :
    (p : RfTransmitter)
    → IsRfTransmitter p
    → IsCoded param_rf_transmitter rf_transmitter_header unmarshal_rf_transmitter p
unfolding unmarshal_rf_transmitter rf_transmitter_header has_enough_bytes encode_params is_tv
rf_transmitter_header-IsCoded p v = ground arith

pub rf_transmitter-IsRead : (x : RfTransmitter) → IsRfTransmitter x → IsRead rf_transmitter_coding x
rf_transmitter-IsRead x v =
    coding-IsRead param_rf_transmitter rf_transmitter_header unmarshal_rf_transmitter x
      (rf_transmitter_header-IsCoded x v)

abbrev pub IsAntennaConfiguration : AntennaConfiguration → Type 0
IsAntennaConfiguration p =
    IsU16 p.antenna_id
    × IfSome IsU16 p.rf_receiver
    × IfSome IsRfTransmitter p.rf_transmitter
    × IfSome IsC1g2InventoryCommand p.c1g2_inventory_command
    × All IsCustom p.custom
    × Fits (antenna_configuration_header p)

abbrev pub antenna_configuration_coding : Coding AntennaConfiguration
antenna_configuration_coding =
    coding param_antenna_configuration antenna_configuration_header unmarshal_antenna_configuration

antenna_configuration_read :
    (p : AntennaConfiguration) (rest rest2 : List ℕ)
    → IsU16 p.antenna_id
    → 2 ≤ length ((be16 p.antenna_id) ++ rest)
    → group
        (suc (length rest))
        antenna_configuration_group1
        (record p {
          rf_receiver = none;
          rf_transmitter = none;
          c1g2_inventory_command = none;
          custom = [];
        })
        rest
      ≡ ok (record p { custom = [] }, rest2)
    → group (suc (length rest2)) antenna_configuration_group2 (record p { custom = [] }) rest2
      ≡ ok (p, [])
    → unmarshal_antenna_configuration ((be16 p.antenna_id) ++ rest) ≡ ok p
unfolding unmarshal_antenna_configuration has_enough_bytes
antenna_configuration_read p rest rest2 b0 h1 h2 h3 = ground (
  arith,
  group-empty antenna_configuration_group1 rest rest2
      (record p {
        rf_receiver = none;
        rf_transmitter = none;
        c1g2_inventory_command = none;
        custom = [];
      })
      (record p { custom = [] }) h2,
  group-empty antenna_configuration_group2 rest2 [] (record p { custom = [] }) (p) h3,
)

pub antenna_configuration_header-IsCoded :
    (p : AntennaConfiguration)
    → IsAntennaConfiguration p
    → IsCoded param_antenna_configuration antenna_configuration_header
        unmarshal_antenna_configuration p
unfolding antenna_configuration_header is_tv antenna_configuration_group1
    antenna_configuration_group2
antenna_configuration_header-IsCoded p (b0, c0, c1, c2, c3, fits) =
    let i0 : IfSome (IsRead rf_receiver_coding) p.rf_receiver =
      IfSome-map rf_receiver-IsRead p.rf_receiver c0 in
    let i1 : IfSome (IsRead rf_transmitter_coding) p.rf_transmitter =
      IfSome-map rf_transmitter-IsRead p.rf_transmitter c1 in
    let i2 : IfSome (IsRead c1g2_inventory_command_coding) p.c1g2_inventory_command =
      IfSome-map c1g2_inventory_command-IsRead p.c1g2_inventory_command c2 in
    let i3 : All (IsRead custom_coding) p.custom = All-map custom-IsRead p.custom c3 in
    let k3 : ParamHeaders = every custom_header p.custom +++ nil in
    let k2 : ParamHeaders = maybe c1g2_inventory_command_header p.c1g2_inventory_command +++ k3 in
    let k1 : ParamHeaders = maybe rf_transmitter_header p.rf_transmitter +++ k2 in
    let k0 : ParamHeaders = maybe rf_receiver_header p.rf_receiver +++ k1 in
    (
      IsWritten-subs param_antenna_configuration 6 (be16 p.antenna_id) _ refl (omega arith) refl
          (AllSized-maybe rf_receiver_coding p.rf_receiver _ i0 (
            AllSized-maybe rf_transmitter_coding p.rf_transmitter _ i1 (
              AllSized-maybe c1g2_inventory_command_coding p.c1g2_inventory_command _ i2
                (AllSized-every custom_coding p.custom _ i3 tt))))
          fits,
      refl,
      antenna_configuration_read p (encode_params k0) (encode_params k3) b0 (omega (arith))
          ((Gives-maybe antenna_configuration_group1 rf_receiver_coding
              (λ o. record p {
                rf_receiver = o;
                rf_transmitter = none;
                c1g2_inventory_command = none;
                custom = [];
              })
              p.rf_receiver _ _ refl i0
              (Gives-maybe antenna_configuration_group1 rf_transmitter_coding
                (λ o. record p { rf_transmitter = o; c1g2_inventory_command = none; custom = [] })
                p.rf_transmitter _ _ refl i1
                (Gives-maybe antenna_configuration_group1 c1g2_inventory_command_coding
                  (λ o. record p { c1g2_inventory_command = o; custom = [] })
                  p.c1g2_inventory_command _ _ refl i2
                  (Gives-foreign antenna_configuration_group1 (record p { custom = [] }) _
                    (every-IsForeign antenna_configuration_group1 (record p { custom = [] })
                      custom_coding p.custom _ i3 refl tt)))))
            _ (omega arith))
          ((Gives-every antenna_configuration_group2 custom_coding (λ o. record p { custom = o })
              (λ _. refl) p.custom [] _ _ i3 (Gives-nil antenna_configuration_group2 p))
            _ (omega arith)),
    )

pub antenna_configuration-IsRead :
    (x : AntennaConfiguration) → IsAntennaConfiguration x → IsRead antenna_configuration_coding x
antenna_configuration-IsRead x v =
    coding-IsRead param_antenna_configuration antenna_configuration_header
      unmarshal_antenna_configuration x (antenna_configuration_header-IsCoded x v)
