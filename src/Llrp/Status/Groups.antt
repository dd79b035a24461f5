-- ===== src/Llrp/Status/Groups.antt =====
-- The sub-parameters of a status, as they are written and read.
use device_rfid_llrp_go.Prelude.{
  ℕ, zero, suc, ◌+◌, ◌^◌, ◌<◌, ◌≡◌, refl, Option, none, some, List, [], ◌++◌, arith, length,
  length-append, ok, IsU16, ◌∙◌,
}
use device_rfid_llrp_go.Llrp.Bytes.{be16}
use device_rfid_llrp_go.Llrp.Params.{encode_params, head_bytes}
use device_rfid_llrp_go.Llrp.Params.Sizes.{framed}
use device_rfid_llrp_go.Llrp.Status.{
  FieldError, ParameterError, LlrpStatus, Found, nothing_found, field_error_headers, param_group,
}
use device_rfid_llrp_go.Llrp.Status.RoundTrip.{
  IsFieldError, IsParameterError, full_size, field_size, field_bytes, pe_body, length-pe_body,
  length-field_bytes, field_bytes_read, group_field, group_inner, group_end, unmarshal-pe_body,
  full_size-ge,
}

abbrev pub IsError : Option ParameterError → Type 0
IsError none = Unit
IsError (some p) = IsParameterError p

abbrev pub error_size : Option ParameterError → ℕ
error_size none = 0
error_size (some p) = full_size p

abbrev pub error_bytes : Option ParameterError → List ℕ
error_bytes none = []
error_bytes (some p) = framed 289 (full_size p) (pe_body p) []

abbrev pub status_size : LlrpStatus → ℕ
status_size p =
    8 + length p.error_description + field_size p.field_error + error_size p.parameter_error

abbrev pub IsLlrpStatus : LlrpStatus → Type 0
IsLlrpStatus p =
    IsU16 p.status
    × IsFieldError p.field_error
    × IsError p.parameter_error
    × (status_size p < 2 ^ 16)

group_error_bytes :
    (fuel : ℕ) (found : Found) (o : Option ParameterError)
    → IsError o
    → error_size o < 2 ^ 16
    → error_size o < fuel + 4
    → found.parameter_error ≡ none
    → param_group (suc (suc fuel)) found (error_bytes o) ≡ ok (record found { parameter_error = o })
group_error_bytes fuel found none v h m e = ground (arith, group_end (suc fuel) found)
group_error_bytes fuel found (some p) v h m e =
    group_inner (suc fuel) (full_size p) found (pe_body p) [] h (omega (arith, length-pe_body p)) p
      (unmarshal-pe_body (suc fuel) p v h (omega arith))
    ∙ group_end fuel _

group_both :
    (fuel : ℕ) (f : Option FieldError) (o : Option ParameterError)
    → IsFieldError f
    → IsError o
    → error_size o < 2 ^ 16
    → error_size o < fuel + 4
    → param_group (suc (suc (suc fuel))) nothing_found (field_bytes f ++ error_bytes o)
      ≡ ok (record { field_error = f; parameter_error = o })
unfolding field_error_headers encode_params head_bytes
group_both fuel none o v w h m = group_error_bytes (suc fuel) nothing_found o w h (omega arith) refl
group_both fuel (some p) o v w h m =
    group_field (suc (suc fuel)) 8 nothing_found (be16 p.field_index ++ be16 p.error_code)
      (error_bytes o) (omega arith) refl p (field_bytes_read p v)
    ∙ group_error_bytes fuel _ o w h m refl

length-error_bytes : (o : Option ParameterError) → length (error_bytes o) ≡ error_size o
length-error_bytes none = refl
length-error_bytes (some p) = omega (arith, length-pe_body p, length-append (pe_body p) [])

unfoldable pub rest_bytes : LlrpStatus → List ℕ
rest_bytes p = field_bytes p.field_error ++ error_bytes p.parameter_error

pub length-rest_bytes :
    (p : LlrpStatus)
    → length (rest_bytes p) ≡ field_size p.field_error + error_size p.parameter_error
unfolding rest_bytes
length-rest_bytes p = omega (
  arith,
  length-append (field_bytes p.field_error) (error_bytes p.parameter_error),
  length-field_bytes p.field_error,
  length-error_bytes p.parameter_error,
)

group_rest :
    (n : ℕ) (f : Option FieldError) (o : Option ParameterError)
    → IsFieldError f
    → IsError o
    → error_size o < 2 ^ 16
    → field_size f + error_size o < n
    → param_group n nothing_found (field_bytes f ++ error_bytes o)
      ≡ ok (record { field_error = f; parameter_error = o })
unfolding encode_params field_error_headers
group_rest zero f o v w h m = absurd (omega arith)
group_rest (suc zero) none none v w h m = group_end zero nothing_found
group_rest (suc zero) none (some p) v w h m = absurd (omega (arith, full_size-ge p))
group_rest (suc zero) (some q) o v w h m = absurd (omega arith)
group_rest (suc (suc zero)) none none v w h m = group_end (suc zero) nothing_found
group_rest (suc (suc zero)) none (some p) v w h m = absurd (omega (arith, full_size-ge p))
group_rest (suc (suc zero)) (some q) o v w h m = absurd (omega arith)
group_rest (suc (suc (suc fuel))) f o v w h m = group_both fuel f o v w h (omega arith)

pub group_rest_all :
    (p : LlrpStatus)
    → IsLlrpStatus p
    → param_group (suc (length (rest_bytes p))) nothing_found (rest_bytes p)
      ≡ ok (record { field_error = p.field_error; parameter_error = p.parameter_error })
unfolding rest_bytes
group_rest_all p v =
    group_rest _ p.field_error p.parameter_error v.1 v.2 (omega arith)
      (omega (arith, length-rest_bytes p))
