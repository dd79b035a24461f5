-- ===== src/Llrp/Codec/ReplyMessages.antt =====
-- Replies with parameters of their own: generated code of pkg/llrp.
use device_rfid_llrp_go.Prelude.{
  ℕ, suc, Option, none, some, List, [], ◌∷◌, ◌++◌, leb, ◌==◌, if◌then◌else◌, length, Outcome, ◌>>=◌,
  ◌>>◌, guard,
}
use device_rfid_llrp_go.Llrp.Params.{nil, CodecError, encode_params}
use device_rfid_llrp_go.Llrp.Fields.{
  finished, unless_empty, within, required, Cases, into, group, ◌+++◌, one, every, maybe,
}
use device_rfid_llrp_go.Llrp.Status.{LlrpStatus, unmarshal_status, status_header, param_llrp_status}
use device_rfid_llrp_go.Llrp.ParamTypes.{
  param_access_spec, param_c1g2_llrp_capabilities, param_custom, param_general_device_capabilities,
  param_llrp_capabilities, param_regulatory_capabilities, param_ro_spec,
}
use device_rfid_llrp_go.Llrp.MessageTypes as MessageTypes
use device_rfid_llrp_go.Llrp.Codec.Identities.{Custom, custom_header, unmarshal_custom}
use device_rfid_llrp_go.Llrp.Codec.Capabilities.{
  LlrpCapabilities, llrp_capabilities_header, unmarshal_llrp_capabilities, C1g2LlrpCapabilities,
  c1g2_llrp_capabilities_header, unmarshal_c1g2_llrp_capabilities, GeneralDeviceCapabilities,
  general_device_capabilities_header, unmarshal_general_device_capabilities,
}
use device_rfid_llrp_go.Llrp.Codec.Regulatory.{
  RegulatoryCapabilities, regulatory_capabilities_header, unmarshal_regulatory_capabilities,
}
use device_rfid_llrp_go.Llrp.Codec.RoSpecs.{RoSpec, ro_spec_header, unmarshal_ro_spec}
use device_rfid_llrp_go.Llrp.Codec.AccessSpecs.{
  AccessSpec, access_spec_header, unmarshal_access_spec,
}

pub record GetReaderCapabilitiesResponse : Type 0 where
  pub llrp_status : LlrpStatus
  pub general_device_capabilities : Option GeneralDeviceCapabilities
  pub llrp_capabilities : Option LlrpCapabilities
  pub regulatory_capabilities : Option RegulatoryCapabilities
  pub c1g2_llrp_capabilities : Option C1g2LlrpCapabilities
  pub custom : List Custom

-- `GetReaderCapabilitiesResponse.MarshalBinary`
unfoldable pub marshal_get_reader_capabilities_response : GetReaderCapabilitiesResponse → List ℕ
marshal_get_reader_capabilities_response p = encode_params (
    one (status_header p.llrp_status)
    +++ maybe general_device_capabilities_header p.general_device_capabilities
    +++ maybe llrp_capabilities_header p.llrp_capabilities
    +++ maybe regulatory_capabilities_header p.regulatory_capabilities
    +++ maybe c1g2_llrp_capabilities_header p.c1g2_llrp_capabilities
    +++ every custom_header p.custom
    +++ nil)

unfoldable pub get_reader_capabilities_response_group1 : Cases GetReaderCapabilitiesResponse
get_reader_capabilities_response_group1 pt p =
    if pt == param_general_device_capabilities
    then into (within unmarshal_general_device_capabilities)
        (λ x. record p { general_device_capabilities = some x })
    else if pt == param_llrp_capabilities
    then into (within unmarshal_llrp_capabilities) (λ x. record p { llrp_capabilities = some x })
    else if pt == param_regulatory_capabilities
    then into (within unmarshal_regulatory_capabilities)
        (λ x. record p { regulatory_capabilities = some x })
    else if pt == param_c1g2_llrp_capabilities
    then into (within unmarshal_c1g2_llrp_capabilities)
        (λ x. record p { c1g2_llrp_capabilities = some x })
    else none

unfoldable pub get_reader_capabilities_response_group2 : Cases GetReaderCapabilitiesResponse
get_reader_capabilities_response_group2 pt p =
    if pt == param_custom
    then into (within unmarshal_custom) (λ x. record p { custom = p.custom ++ (x ∷ []) })
    else none

-- `GetReaderCapabilitiesResponse.UnmarshalBinary`
unfoldable pub unmarshal_get_reader_capabilities_response :
    List ℕ → Outcome CodecError GetReaderCapabilitiesResponse
unmarshal_get_reader_capabilities_response bytes = do
  guard (leb 8 (length bytes))
      (CodecError.wrong_length MessageTypes.get_reader_capabilities_response (length bytes))
  (llrp_status, rest) ← required param_llrp_status (within unmarshal_status) bytes
  let p : GetReaderCapabilitiesResponse = record {
    llrp_status = llrp_status;
    general_device_capabilities = none;
    llrp_capabilities = none;
    regulatory_capabilities = none;
    c1g2_llrp_capabilities = none;
    custom = [];
  }
  unless_empty rest p (do
    (p2, rest2) ← group (suc (length rest)) get_reader_capabilities_response_group1 p rest
    unless_empty rest2 p2 (do
      (p3, rest3) ← group (suc (length rest2)) get_reader_capabilities_response_group2 p2 rest2
      finished rest3 p3))

pub record GetRoSpecsResponse : Type 0 where
  pub llrp_status : LlrpStatus
  pub ro_specs : List RoSpec

-- `GetROSpecsResponse.MarshalBinary`
unfoldable pub marshal_get_ro_specs_response : GetRoSpecsResponse → List ℕ
marshal_get_ro_specs_response p =
    encode_params (one (status_header p.llrp_status) +++ every ro_spec_header p.ro_specs +++ nil)

unfoldable pub get_ro_specs_response_group1 : Cases GetRoSpecsResponse
get_ro_specs_response_group1 pt p =
    if pt == param_ro_spec
    then into (within unmarshal_ro_spec) (λ x. record p { ro_specs = p.ro_specs ++ (x ∷ []) })
    else none

-- `GetROSpecsResponse.UnmarshalBinary`
unfoldable pub unmarshal_get_ro_specs_response : List ℕ → Outcome CodecError GetRoSpecsResponse
unmarshal_get_ro_specs_response bytes = do
  guard (leb 8 (length bytes))
      (CodecError.wrong_length MessageTypes.get_ro_specs_response (length bytes))
  (llrp_status, rest) ← required param_llrp_status (within unmarshal_status) bytes
  let p : GetRoSpecsResponse = record { llrp_status = llrp_status; ro_specs = [] }
  unless_empty rest p (do
    (p2, rest2) ← group (suc (length rest)) get_ro_specs_response_group1 p rest
    finished rest2 p2)

pub record GetAccessSpecsResponse : Type 0 where
  pub llrp_status : LlrpStatus
  pub access_specs : List AccessSpec

-- `GetAccessSpecsResponse.MarshalBinary`
unfoldable pub marshal_get_access_specs_response : GetAccessSpecsResponse → List ℕ
marshal_get_access_specs_response p =
    encode_params
      (one (status_header p.llrp_status) +++ every access_spec_header p.access_specs +++ nil)

unfoldable pub get_access_specs_response_group1 : Cases GetAccessSpecsResponse
get_access_specs_response_group1 pt p =
    if pt == param_access_spec
    then into (within unmarshal_access_spec)
        (λ x. record p { access_specs = p.access_specs ++ (x ∷ []) })
    else none

-- `GetAccessSpecsResponse.UnmarshalBinary`
unfoldable pub unmarshal_get_access_specs_response :
    List ℕ → Outcome CodecError GetAccessSpecsResponse
unmarshal_get_access_specs_response bytes = do
  guard (leb 8 (length bytes))
      (CodecError.wrong_length MessageTypes.get_access_specs_response (length bytes))
  (llrp_status, rest) ← required param_llrp_status (within unmarshal_status) bytes
  let p : GetAccessSpecsResponse = record { llrp_status = llrp_status; access_specs = [] }
  unless_empty rest p (do
    (p2, rest2) ← group (suc (length rest)) get_access_specs_response_group1 p rest
    finished rest2 p2)
