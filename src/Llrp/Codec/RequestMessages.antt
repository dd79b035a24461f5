-- ===== src/Llrp/Codec/RequestMessages.antt =====
-- Requests with parameters of their own, and `CustomMessage`: generated code of pkg/llrp.
use device_rfid_llrp_go.Prelude.{
  ℕ, suc, none, List, [], ◌∷◌, ◌++◌, leb, ◌==◌, if◌then◌else◌, length, Outcome, ok, ◌>>=◌, ◌>>◌,
  guard,
}
use device_rfid_llrp_go.Llrp.Bytes.{be16, be32, slice_from}
use device_rfid_llrp_go.Llrp.Params.{nil, CodecError, encode_params}
use device_rfid_llrp_go.Llrp.Fields.{
  byte_at, uint16_at, uint32_at, finished, unless_empty, within, required, Cases, into, group, u8,
  ◌+++◌, one, every,
}
use device_rfid_llrp_go.Llrp.ParamTypes.{param_access_spec, param_custom, param_ro_spec}
use device_rfid_llrp_go.Llrp.MessageTypes as MessageTypes
use device_rfid_llrp_go.Llrp.Codec.Identities.{Custom, custom_header, unmarshal_custom}
use device_rfid_llrp_go.Llrp.Codec.RoSpecs.{RoSpec, ro_spec_header, unmarshal_ro_spec}
use device_rfid_llrp_go.Llrp.Codec.AccessSpecs.{
  AccessSpec, access_spec_header, unmarshal_access_spec,
}

pub record GetReaderCapabilities : Type 0 where
  pub reader_capabilities_requested_data : ℕ
  pub custom : List Custom

-- `GetReaderCapabilities.MarshalBinary`
unfoldable pub marshal_get_reader_capabilities : GetReaderCapabilities → List ℕ
marshal_get_reader_capabilities p =
    (u8 p.reader_capabilities_requested_data ∷ [])
    ++ encode_params (every custom_header p.custom +++ nil)

unfoldable pub get_reader_capabilities_group1 : Cases GetReaderCapabilities
get_reader_capabilities_group1 pt p =
    if pt == param_custom
    then into (within unmarshal_custom) (λ x. record p { custom = p.custom ++ (x ∷ []) })
    else none

-- `GetReaderCapabilities.UnmarshalBinary`
unfoldable pub unmarshal_get_reader_capabilities : List ℕ → Outcome CodecError GetReaderCapabilities
unmarshal_get_reader_capabilities bytes = do
  guard (leb 1 (length bytes))
      (CodecError.wrong_length MessageTypes.get_reader_capabilities (length bytes))
  reader_capabilities_requested_data ← byte_at 0 bytes
  rest ← slice_from 1 bytes
  let p : GetReaderCapabilities = record {
    reader_capabilities_requested_data = reader_capabilities_requested_data;
    custom = [];
  }
  unless_empty rest p (do
    (p2, rest2) ← group (suc (length rest)) get_reader_capabilities_group1 p rest
    finished rest2 p2)

pub record AddRoSpec : Type 0 where
  pub ro_spec : RoSpec

-- `AddROSpec.MarshalBinary`
unfoldable pub marshal_add_ro_spec : AddRoSpec → List ℕ
marshal_add_ro_spec p = encode_params (one (ro_spec_header p.ro_spec) +++ nil)

-- `AddROSpec.UnmarshalBinary`
unfoldable pub unmarshal_add_ro_spec : List ℕ → Outcome CodecError AddRoSpec
unmarshal_add_ro_spec bytes = do
  guard (leb 19 (length bytes)) (CodecError.wrong_length MessageTypes.add_ro_spec (length bytes))
  (ro_spec, rest) ← required param_ro_spec (within unmarshal_ro_spec) bytes
  finished rest (record { ro_spec = ro_spec })

pub record AddAccessSpec : Type 0 where
  pub access_spec : AccessSpec

-- `AddAccessSpec.MarshalBinary`
unfoldable pub marshal_add_access_spec : AddAccessSpec → List ℕ
marshal_add_access_spec p = encode_params (one (access_spec_header p.access_spec) +++ nil)

-- `AddAccessSpec.UnmarshalBinary`
unfoldable pub unmarshal_add_access_spec : List ℕ → Outcome CodecError AddAccessSpec
unmarshal_add_access_spec bytes = do
  guard (leb 23 (length bytes))
      (CodecError.wrong_length MessageTypes.add_access_spec (length bytes))
  (access_spec, rest) ← required param_access_spec (within unmarshal_access_spec) bytes
  finished rest (record { access_spec = access_spec })

pub record GetReaderConfig : Type 0 where
  pub antenna_id : ℕ
  pub requested_data : ℕ
  pub gpi_port_num : ℕ
  pub gpo_port_num : ℕ
  pub custom : List Custom

-- `GetReaderConfig.MarshalBinary`
unfoldable pub marshal_get_reader_config : GetReaderConfig → List ℕ
marshal_get_reader_config p =
    be16 p.antenna_id
    ++ (u8 p.requested_data ∷ [])
    ++ be16 p.gpi_port_num
    ++ be16 p.gpo_port_num
    ++ encode_params (every custom_header p.custom +++ nil)

unfoldable pub get_reader_config_group1 : Cases GetReaderConfig
get_reader_config_group1 pt p =
    if pt == param_custom
    then into (within unmarshal_custom) (λ x. record p { custom = p.custom ++ (x ∷ []) })
    else none

-- `GetReaderConfig.UnmarshalBinary`
unfoldable pub unmarshal_get_reader_config : List ℕ → Outcome CodecError GetReaderConfig
unmarshal_get_reader_config bytes = do
  guard (leb 7 (length bytes))
      (CodecError.wrong_length MessageTypes.get_reader_config (length bytes))
  antenna_id ← uint16_at 0 bytes
  requested_data ← byte_at 2 bytes
  gpi_port_num ← uint16_at 3 bytes
  gpo_port_num ← uint16_at 5 bytes
  rest ← slice_from 7 bytes
  let p : GetReaderConfig = record {
    antenna_id = antenna_id;
    requested_data = requested_data;
    gpi_port_num = gpi_port_num;
    gpo_port_num = gpo_port_num;
    custom = [];
  }
  unless_empty rest p (do
    (p2, rest2) ← group (suc (length rest)) get_reader_config_group1 p rest
    finished rest2 p2)

pub record CustomMessage : Type 0 where
  pub vendor_id : ℕ
  pub message_subtype : ℕ
  pub words : List ℕ

-- `CustomMessage.MarshalBinary`
unfoldable pub marshal_custom_message : CustomMessage → List ℕ
marshal_custom_message p = be32 p.vendor_id ++ (p.message_subtype ∷ []) ++ p.words

-- `CustomMessage.UnmarshalBinary`
unfoldable pub unmarshal_custom_message : List ℕ → Outcome CodecError CustomMessage
unmarshal_custom_message bytes = do
  guard (leb 5 (length bytes)) (CodecError.wrong_length MessageTypes.custom_message (length bytes))
  vendor_id ← uint32_at 0 bytes
  message_subtype ← byte_at 4 bytes
  words ← slice_from 5 bytes
  rest ← slice_from 5 bytes
  ok (record { vendor_id = vendor_id; message_subtype = message_subtype; words = words })
