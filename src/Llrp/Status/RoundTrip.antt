-- ===== src/Llrp/Status/RoundTrip.antt =====
-- A status that was written is read back, nested errors included.
use device_rfid_llrp_go.Prelude.{
  ℕ, zero, suc, ◌+◌, ◌^◌, ◌≤◌, ◌<◌, ◌≡◌, refl, Option, none, some, List, [], ◌++◌, arith, length,
  length-append, ok, IsU16, ◌∙◌,
}
use device_rfid_llrp_go.Llrp.Bytes.{be16}
use device_rfid_llrp_go.Llrp.Params.{size, encode_param, encode_params, head_bytes}
use device_rfid_llrp_go.Llrp.Params.Sizes.{framed, next_tlv-framed, slice-framed, slice_from-framed}
use device_rfid_llrp_go.Llrp.Status.{
  FieldError, Fault, ParameterError, plain, nested, Found, nothing_found, with_found, at_end,
  field_error_headers, fault_fields, parameter_error_header, unmarshal_field_error,
  unmarshal_parameter_error, param_group, read_parameter_error,
}

module _ (fuel sz : ℕ) (found : Found) (body rest : List ℕ) (ss : IsU16 sz)
    (whole : sz ≡ 4 + length body) where
  pub group_inner :
      (p : ParameterError)
      → unmarshal_parameter_error fuel body ≡ ok p
      → param_group (suc fuel) found (framed 289 sz body rest)
        ≡ param_group fuel (record found { parameter_error = some p }) rest
  unfolding param_group
  group_inner p e = ground (
    arith,
    next_tlv-framed 289 sz body rest (omega arith) ss whole,
    slice-framed 289 sz body rest (omega arith) ss whole,
    e,
    slice_from-framed 289 sz body rest (omega arith) ss whole,
  )

  pub group_field :
      (p : FieldError)
      → unmarshal_field_error body ≡ ok p
      → param_group (suc fuel) found (framed 288 sz body rest)
        ≡ param_group fuel (record found { field_error = some p }) rest
  unfolding param_group
  group_field p e = ground (
    arith,
    next_tlv-framed 288 sz body rest (omega arith) ss whole,
    slice-framed 288 sz body rest (omega arith) ss whole,
    e,
    slice_from-framed 288 sz body rest (omega arith) ss whole,
  )

pub group_end : (fuel : ℕ) (found : Found) → param_group (suc fuel) found [] ≡ ok found
unfolding param_group at_end
group_end fuel found = refl

-- The fields fit their widths, and every size fits the header's uint16.
abbrev pub IsFieldError : Option FieldError → Type 0
IsFieldError none = Unit
IsFieldError (some p) = IsU16 p.field_index × IsU16 p.error_code

abbrev pub IsFault : Fault → Type 0
IsFault p = IsU16 p.parameter_type × IsU16 p.error_code × IsFieldError p.field_error

abbrev pub IsParameterError : ParameterError → Type 0
IsParameterError (plain p) = IsFault p
IsParameterError (nested p sub) = IsFault p × IsParameterError sub

-- The bytes of a parameter error with its header, not wrapped.
abbrev pub field_size : Option FieldError → ℕ
field_size none = 0
field_size (some _) = 8

abbrev pub full_size : ParameterError → ℕ
full_size (plain p) = 8 + field_size p.field_error
full_size (nested p sub) = 8 + full_size sub + field_size p.field_error

abbrev pub field_bytes : Option FieldError → List ℕ
field_bytes o = encode_params (field_error_headers o)

-- What follows the header.
unfoldable pub pe_body : ParameterError → List ℕ
unfolding fault_fields
pe_body (plain p) = fault_fields p ++ field_bytes p.field_error
pe_body (nested p sub) =
    fault_fields p ++ framed 289 (full_size sub) (pe_body sub) (field_bytes p.field_error)

pub length-field_bytes : (o : Option FieldError) → length (field_bytes o) ≡ field_size o
unfolding field_error_headers encode_params head_bytes
length-field_bytes none = refl
length-field_bytes (some p) = refl

pub length-pe_body : (p : ParameterError) → length (pe_body p) + 4 ≡ full_size p
unfolding pe_body
length-pe_body (plain p) = omega (arith, length-field_bytes p.field_error)
length-pe_body (nested p sub) = omega (
  arith,
  length-pe_body sub,
  length-field_bytes p.field_error,
  length-append (pe_body sub) (field_bytes p.field_error),
)

pub header_size :
    (p : ParameterError) → full_size p < 2 ^ 16 → size (parameter_error_header p) ≡ full_size p
unfolding parameter_error_header
header_size (plain p) h = ground arith
header_size (nested p sub) h = ground (arith, header_size sub)

pub encode-pe_body :
    (p : ParameterError)
    → full_size p < 2 ^ 16
    → encode_param (parameter_error_header p) ≡ (be16 289 ++ be16 (full_size p)) ++ pe_body p
unfolding parameter_error_header encode_param head_bytes pe_body
encode-pe_body (plain p) h = ground arith
encode-pe_body (nested p sub) h =
    rw (encode-pe_body sub (omega arith)) (ground (arith, header_size sub))

pub field_bytes_read :
    (p : FieldError)
    → IsU16 p.field_index × IsU16 p.error_code
    → unmarshal_field_error (be16 p.field_index ++ be16 p.error_code) ≡ ok p
unfolding unmarshal_field_error
field_bytes_read p h = ground arith

group_field_bytes :
    (fuel : ℕ) (found : Found) (o : Option FieldError)
    → IsFieldError o
    → found.field_error ≡ none
    → param_group (suc (suc fuel)) found (field_bytes o) ≡ ok (record found { field_error = o })
unfolding field_error_headers encode_params head_bytes
group_field_bytes fuel found none h e = ground (arith, group_end (suc fuel) found)
group_field_bytes fuel found (some p) h e =
    group_field (suc fuel) 8 found (be16 p.field_index ++ be16 p.error_code) [] (omega arith) refl p
      (field_bytes_read p h)
    ∙ group_end fuel _

pub full_size-ge : (p : ParameterError) → 8 ≤ full_size p
full_size-ge (plain p) = omega arith
full_size-ge (nested p sub) = omega arith

fault_read :
    (fuel : ℕ) (p : Fault) (rest : List ℕ) (found : Found)
    → IsFault p
    → param_group fuel nothing_found rest ≡ ok found
    → unmarshal_parameter_error (suc fuel) (fault_fields p ++ rest)
      ≡ ok (with_found p.parameter_type p.error_code found)
unfolding unmarshal_parameter_error fault_fields
fault_read fuel p rest found v e = ground arith

-- The calls that a value needs are no more than its bytes.
pub unmarshal-pe_body :
    (fuel : ℕ) (p : ParameterError)
    → IsParameterError p
    → full_size p < 2 ^ 16
    → full_size p < fuel + 4
    → unmarshal_parameter_error fuel (pe_body p) ≡ ok p
unfolding pe_body with_found
unmarshal-pe_body zero p v h m = absurd (omega (arith, full_size-ge p))
unmarshal-pe_body (suc zero) p v h m = absurd (omega (arith, full_size-ge p))
unmarshal-pe_body (suc (suc zero)) p v h m = absurd (omega (arith, full_size-ge p))
unmarshal-pe_body (suc (suc (suc zero))) p v h m = absurd (omega (arith, full_size-ge p))
unmarshal-pe_body (suc (suc (suc (suc fuel)))) (plain p) v h m =
    fault_read _ p _ _ v (group_field_bytes (suc fuel) nothing_found p.field_error v.2 refl)
unmarshal-pe_body (suc (suc (suc (suc fuel)))) (nested p sub) (v, w) h m = fault_read _ p _ _ v (
    group_inner (suc (suc fuel)) (full_size sub) nothing_found (pe_body sub)
      (field_bytes p.field_error) (omega arith) (omega (arith, length-pe_body sub)) sub
      (unmarshal-pe_body (suc (suc fuel)) sub w (omega arith) (omega arith))
    ∙ group_field_bytes fuel _ p.field_error v.2 refl)

-- A parameter error that was written is read back from what follows its header, however deep it nests, if
-- its numbers fit their fields and its whole size fits a uint16.
pub read_parameter_error-encode_param :
    (p : ParameterError)
    → IsParameterError p
    → full_size p < 2 ^ 16
    → (body : List ℕ) × (encode_param (parameter_error_header p)
        ≡ (be16 289 ++ be16 (full_size p)) ++ body)
      × (read_parameter_error body ≡ ok p)
unfolding read_parameter_error
read_parameter_error-encode_param p v h =
    (pe_body p, encode-pe_body p h, unmarshal-pe_body _ p v h (omega (arith, length-pe_body p)))
