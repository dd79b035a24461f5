-- ===== src/Llrp/Status/StatusRoundTrip.antt =====
-- `LLRPStatus` itself is read back, with its description and both of its errors.
use device_rfid_llrp_go.Prelude.{
  ℕ, suc, ◌+◌, ◌*◌, ◌/◌, ◌%◌, ◌^◌, ◌<◌, ◌≡◌, refl, true, false, Option, none, some, List, ◌∷◌, ◌++◌,
  arith, leb, >>=-of-ok, length, length-append, ok, ◌∙◌,
}
use device_rfid_llrp_go.Llrp.Bytes.{be16, slice, slice_from}
use device_rfid_llrp_go.Llrp.Params.{
  encode_param, encode_params, head_bytes, CodecError, has_enough_bytes,
}
use device_rfid_llrp_go.Llrp.Params.Sizes.{four_more, slice-four, slice_from-four}
use device_rfid_llrp_go.Llrp.Status.{
  FieldError, ParameterError, LlrpStatus, Found, nothing_found, field_error_headers, status_subs,
  parameter_error_size, status_fields, status_header, param_group, unmarshal_status,
}
use device_rfid_llrp_go.Llrp.Status.RoundTrip.{field_bytes, header_size, encode-pe_body}
use device_rfid_llrp_go.Llrp.Status.Groups.{
  error_size, error_bytes, status_size, IsLlrpStatus, rest_bytes, length-rest_bytes, group_rest_all,
}

error_size-header :
    (o : Option ParameterError) → error_size o < 2 ^ 16 → parameter_error_size o ≡ error_size o
error_size-header none h = refl
error_size-header (some p) h = header_size p h

encode-status_subs :
    (f : Option FieldError) (o : Option ParameterError)
    → error_size o < 2 ^ 16
    → encode_params (status_subs f o) ≡ field_bytes f ++ error_bytes o
unfolding status_subs encode_params head_bytes field_error_headers
encode-status_subs none none h = refl
encode-status_subs none (some p) h = rw (encode-pe_body p h) refl
encode-status_subs (some e) none h = refl
encode-status_subs (some e) (some p) h = rw (encode-pe_body p h) refl

-- The writer's bytes.
encode-status_header :
    (p : LlrpStatus)
    → IsLlrpStatus p
    → encode_param (status_header p)
      ≡ (be16 287 ++ be16 (status_size p)) ++ (status_fields p ++ rest_bytes p)
unfolding status_header encode_param head_bytes rest_bytes
encode-status_header p v =
    rw (encode-status_subs p.field_error p.parameter_error (omega arith))
      (ground (arith, error_size-header p.parameter_error))

description_at :
    (p : LlrpStatus)
    → let rest = rest_bytes p in
      let n = length p.error_description in
      (slice {E = CodecError} 4 (n + 4) (status_fields p ++ rest) ≡ ok p.error_description)
      × (slice_from {E = CodecError} (n + 4) (status_fields p ++ rest) ≡ ok rest)
unfolding status_fields four_more
description_at p =
    let rest = rest_bytes p in
    let n = length p.error_description in
    (
      slice-four (p.status / 256 % 256) (p.status % 256) (n / 256 % 256) (n % 256) (n + 4)
          p.error_description rest (omega arith),
      slice_from-four (p.status / 256 % 256) (p.status % 256) (n / 256 % 256) (n % 256) (n + 4)
          p.error_description rest (omega arith),
    )

-- One successful run of the reader, from the results of its steps.
status_read :
    (a b c d : ℕ) (text description rest : List ℕ) (found : Found)
    → leb (c * 2 ^ 8 + d) (length text) ≡ true
    → slice {E = CodecError} 4 (c * 2 ^ 8 + d + 4) (a ∷ b ∷ c ∷ d ∷ text) ≡ ok description
    → slice_from {E = CodecError} (c * 2 ^ 8 + d + 4) (a ∷ b ∷ c ∷ d ∷ text) ≡ ok rest
    → param_group (suc (length rest)) nothing_found rest ≡ ok found
    → unmarshal_status (a ∷ b ∷ c ∷ d ∷ text)
      ≡ ok (record {
        status = a * 2 ^ 8 + b;
        error_description = description;
        field_error = found.field_error;
        parameter_error = found.parameter_error;
      })
unfolding unmarshal_status has_enough_bytes
status_read a b c d text description rest found fits s f g =
    >>=-of-ok (has_enough_bytes 287 4 (length bytes) false) _ enough (
      >>=-of-ok (slice_from 2 bytes) _ behind (
        >>=-of-ok (slice_from 4 bytes) _ tail (
          rw fits (
            >>=-of-ok (slice 4 (c * 2 ^ 8 + d + 4) bytes) _ s (
              >>=-of-ok (slice_from (c * 2 ^ 8 + d + 4) bytes) _ f
                (>>=-of-ok (param_group (suc (length rest)) nothing_found rest) _ g refl))))))
  where
    bytes : List ℕ
    bytes = a ∷ b ∷ c ∷ d ∷ text

    enough : has_enough_bytes 287 4 (length bytes) false ≡ ok tt
    enough = ground arith

    behind : slice_from {E = CodecError} 2 bytes ≡ ok (c ∷ d ∷ text)
    behind = ground arith

    tail : slice_from {E = CodecError} 4 bytes ≡ ok text
    tail = ground arith

unmarshal_status-fields :
    (p : LlrpStatus) → IsLlrpStatus p → unmarshal_status (status_fields p ++ rest_bytes p) ≡ ok p
unfolding status_fields
unmarshal_status-fields p v =
    status_read hi lo len_hi len_lo (p.error_description ++ rest_bytes p) p.error_description
      (rest_bytes p) _ (rw len fits) (rw len (description_at p).0) (rw len (description_at p).1)
      (group_rest_all p v)
    ∙ ground arith
  where
    hi : ℕ
    hi = p.status / 256 % 256

    lo : ℕ
    lo = p.status % 256

    len_hi : ℕ
    len_hi = length p.error_description / 256 % 256

    len_lo : ℕ
    len_lo = length p.error_description % 256

    len : len_hi * 2 ^ 8 + len_lo ≡ length p.error_description
    len = omega arith

    fits : leb (length p.error_description) (length (p.error_description ++ rest_bytes p)) ≡ true
    fits = ground (arith, length-append p.error_description (rest_bytes p))

length-status_fields : (p : LlrpStatus) → length (status_fields p) ≡ 4 + length p.error_description
unfolding status_fields
length-status_fields p = omega arith

-- For every status whose numbers fit their fields and whose whole size fits a uint16: what the encoder
-- writes is the header of an LLRPStatus with the right size, and a body from which
-- `LLRPStatus.UnmarshalBinary` gives the same status back: the code, the text, the field error and the
-- parameter error with all that nests in it.
pub unmarshal_status-encode_param :
    (p : LlrpStatus)
    → IsLlrpStatus p
    → (body : List ℕ) × (encode_param (status_header p)
        ≡ (be16 287 ++ be16 (status_size p)) ++ body)
      × (status_size p ≡ 4 + length body)
      × (unmarshal_status body ≡ ok p)
unmarshal_status-encode_param p v = (
  status_fields p ++ rest_bytes p,
  encode-status_header p v,
  omega (
    arith,
    length-append (status_fields p) (rest_bytes p),
    length-status_fields p,
    length-rest_bytes p,
  ),
  unmarshal_status-fields p v,
)
