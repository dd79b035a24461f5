-- ===== src/Llrp/Status.antt =====
-- `LLRPStatus` with its sub-parameters `FieldError` and `ParameterError`: the generated structs, writers
-- and readers (pkg/llrp/generated_encoder.go, generated_unmarshal.go), and `Err` of pkg/llrp/params.go.
-- A Go string is the list of its bytes. A reader is modelled by the value that it leaves in its receiver
-- on success; the partly filled receiver of a failed read is not.
pub mod Total
pub mod RoundTrip
pub mod Groups
pub mod StatusRoundTrip
use device_rfid_llrp_go.Prelude.{
  ℕ, zero, suc, ◌+◌, ◌/◌, ◌%◌, ◌^◌, Bool, true, false, Option, none, some, List, [], ◌∷◌, ◌++◌, leb,
  ltb, ◌==◌, if◌then◌else◌, length, take, drop, Outcome, ok, err, ◌>>=◌, ◌>>◌, guard,
}
use device_rfid_llrp_go.Llrp.Bytes.{be16, uint16, slice, slice_from}
use device_rfid_llrp_go.Llrp.Params.{
  ParamHeader, ParamHeaders, header, nil, cons, size, CodecError, has_enough_bytes, next_tlv,
}

abbrev pub param_llrp_status : ℕ
param_llrp_status = 287

abbrev pub param_field_error : ℕ
param_field_error = 288

abbrev pub param_parameter_error : ℕ
param_parameter_error = 289

abbrev pub status_success : ℕ
status_success = 0

pub record FieldError : Type 0 where
  pub field_index : ℕ
  pub error_code : ℕ

-- The fields of one `ParameterError` but for its pointer to the next.
pub record Fault : Type 0 where
  pub parameter_type : ℕ
  pub error_code : ℕ
  pub field_error : Option FieldError

-- `ParameterError`: the pointer `ParameterError` is nil in `plain`.
pub data ParameterError : Type 0 where
  plain : Fault → ParameterError
  nested : Fault → ParameterError → ParameterError

pub record LlrpStatus : Type 0 where
  pub status : ℕ
  pub error_description : List ℕ
  pub field_error : Option FieldError
  pub parameter_error : Option ParameterError

abbrev u16 : ℕ → ℕ
u16 n = n % 2 ^ 16

-- `FieldError.EncodeFields` and `getHeader`
unfoldable pub field_error_header : FieldError → ParamHeader
field_error_header p = header param_field_error 8 (be16 p.field_index ++ be16 p.error_code) nil

unfoldable pub field_error_headers : Option FieldError → ParamHeaders
unfolding field_error_header
field_error_headers none = nil
field_error_headers (some p) = cons (field_error_header p) nil

abbrev field_error_size : Option FieldError → ℕ
field_error_size none = 0
field_error_size (some _) = 8

-- `ParameterError.EncodeFields`
unfoldable pub fault_fields : Fault → List ℕ
fault_fields p = be16 p.parameter_type ++ be16 p.error_code

-- `ParameterError.getHeader`; the sizes are uint16s.
unfoldable pub parameter_error_header : ParameterError → ParamHeader
unfolding fault_fields field_error_headers
parameter_error_header (plain p) =
    header param_parameter_error (u16 (8 + field_error_size p.field_error)) (fault_fields p)
      (field_error_headers p.field_error)
parameter_error_header (nested p sub) =
    let sh = parameter_error_header sub in
    header param_parameter_error (u16 (u16 (8 + size sh) + field_error_size p.field_error))
      (fault_fields p) (cons sh (field_error_headers p.field_error))

-- `FieldError.UnmarshalBinary`
unfoldable pub unmarshal_field_error : List ℕ → Outcome CodecError FieldError
unfolding has_enough_bytes
unmarshal_field_error bytes = do
  has_enough_bytes param_field_error 4 (length bytes) true
  index ← uint16 bytes
  behind ← slice_from 2 bytes
  code ← uint16 behind
  ok (record { field_index = index; error_code = code })

-- What the loop over sub-parameters has filled in.
pub record Found : Type 0 where
  pub field_error : Option FieldError
  pub parameter_error : Option ParameterError

abbrev pub nothing_found : Found
nothing_found = record { field_error = none; parameter_error = none }

unfoldable pub with_found : ℕ → ℕ → Found → ParameterError
with_found t code found = elim (found.parameter_error) [
  | none ↦ plain (record { parameter_type = t; error_code = code; field_error = found.field_error })
  | some sub ↦
      nested (record { parameter_type = t; error_code = code; field_error = found.field_error }) sub
]

-- Behind the loop: no byte may remain.
unfoldable pub at_end : List ℕ → Found → Outcome CodecError Found
at_end bytes found =
    if length bytes == 0 then ok found else err (CodecError.trailing (length bytes))

-- `ParameterError.UnmarshalBinary`, and the loop `paramGroup0`, which `LLRPStatus.UnmarshalBinary` has as
-- well. The calls nest as deep as the bytes do, so the fuel counts bytes.
unfoldable mutual
  unfolding has_enough_bytes at_end with_found unmarshal_field_error

  pub unmarshal_parameter_error : ℕ → List ℕ → Outcome CodecError ParameterError
  unmarshal_parameter_error zero bytes = err CodecError.exhausted
  unmarshal_parameter_error (suc fuel) bytes = do
    has_enough_bytes param_parameter_error 4 (length bytes) false
    t ← uint16 bytes
    behind ← slice_from 2 bytes
    code ← uint16 behind
    rest ← slice_from 4 bytes
    found ← param_group fuel nothing_found rest
    ok (with_found t code found)

  pub param_group : ℕ → Found → List ℕ → Outcome CodecError Found
  param_group zero found bytes = err CodecError.exhausted
  param_group (suc fuel) found bytes = elim (leb 4 (length bytes)) [
    | false ↦ at_end bytes found
    | true ↦ do
      (pt, sub_len) ← next_tlv bytes
      elim (pt == param_parameter_error) [
        | true ↦ do
          body ← slice 4 sub_len bytes
          p ← unmarshal_parameter_error fuel body
          rest ← slice_from sub_len bytes
          param_group fuel (record found { parameter_error = some p }) rest
        | false ↦ elim (pt == param_field_error) [
          | true ↦ do
            body ← slice 4 sub_len bytes
            p ← unmarshal_field_error body
            rest ← slice_from sub_len bytes
            param_group fuel (record found { field_error = some p }) rest
          | false ↦ at_end bytes found
        ]
      ]
  ]

-- `ParameterError.UnmarshalBinary`, with the fuel that it needs.
unfoldable pub read_parameter_error : List ℕ → Outcome CodecError ParameterError
read_parameter_error bytes = unmarshal_parameter_error (suc (length bytes)) bytes

-- `LLRPStatus.EncodeFields`
unfoldable pub status_fields : LlrpStatus → List ℕ
status_fields p =
    be16 p.status
    ++ ((length p.error_description / 2 ^ 8 % 2 ^ 8) ∷ (length p.error_description % 2 ^ 8) ∷ [])
    ++ p.error_description

unfoldable pub status_subs : Option FieldError → Option ParameterError → ParamHeaders
unfolding field_error_header
status_subs none none = nil
status_subs none (some p) = cons (parameter_error_header p) nil
status_subs (some e) none = cons (field_error_header e) nil
status_subs (some e) (some p) = cons (field_error_header e) (cons (parameter_error_header p) nil)

abbrev pub parameter_error_size : Option ParameterError → ℕ
parameter_error_size none = 0
parameter_error_size (some p) = size (parameter_error_header p)

-- `LLRPStatus.getHeader`
unfoldable pub status_header : LlrpStatus → ParamHeader
unfolding status_fields status_subs
status_header p =
    header param_llrp_status
      (u16 (
        u16 (u16 (8 + length p.error_description) + field_error_size p.field_error)
        + parameter_error_size p.parameter_error))
      (status_fields p) (status_subs p.field_error p.parameter_error)

-- `LLRPStatus.UnmarshalBinary`
unfoldable pub unmarshal_status : List ℕ → Outcome CodecError LlrpStatus
unfolding has_enough_bytes param_group
unmarshal_status bytes = do
  has_enough_bytes param_llrp_status 4 (length bytes) false
  status ← uint16 bytes
  behind ← slice_from 2 bytes
  str_len ← uint16 behind
  text ← slice_from 4 bytes
  guard (leb str_len (length text)) (CodecError.declares_too_much str_len (length text))
  description ← slice 4 (str_len + 4) bytes
  rest ← slice_from (str_len + 4) bytes
  found ← param_group (suc (length rest)) nothing_found rest
  ok (record {
    status = status;
    error_description = description;
    field_error = found.field_error;
    parameter_error = found.parameter_error;
  })

-- `LLRPStatus.Err`: nil on success, else a `StatusError`, which is the status itself.
unfoldable pub status_err : LlrpStatus → Option LlrpStatus
status_err p = if p.status == status_success then none else some p
