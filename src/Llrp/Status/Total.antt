-- ===== src/Llrp/Status/Total.antt =====
-- The fuel of the readers is enough for every input.
use device_rfid_llrp_go.Prelude.{
  Bool-cases, leb, Bool, true, false, inl, inr, ◌==◌, >>=-ne-err, ◌>>=◌, guard, ℕ, zero, suc, ◌+◌,
  ◌<◌, ◌≢◌, List, arith, length, Outcome, err,
}
use device_rfid_llrp_go.Llrp.Bytes.{
  uint16, slice, slice_from, slice-eq-ok, slice_from-eq-ok, slice-ne-err, slice_from-ne-err,
  uint16-ne-err,
}
use device_rfid_llrp_go.Llrp.Params.{
  CodecError, exhausted, declares_too_much, next_tlv, has_enough_bytes,
}
use device_rfid_llrp_go.Llrp.Status.{
  Found, unmarshal_parameter_error, param_group, read_parameter_error, unmarshal_field_error,
  at_end, nothing_found, unmarshal_status,
}

has_enough_bytes-ne-exhausted :
    (pt n got : ℕ) (exact : Bool) → has_enough_bytes pt n got exact ≢ err exhausted
unfolding has_enough_bytes
has_enough_bytes-ne-exhausted pt n got exact = ground arith

next_tlv-ne-exhausted : (bytes : List ℕ) → next_tlv bytes ≢ err exhausted
unfolding next_tlv
next_tlv-ne-exhausted bytes = >>=-ne-err (uint16 bytes) _ _ (uint16-ne-err bytes _) λ pt _.
    >>=-ne-err (slice_from 2 bytes) _ _ (slice_from-ne-err 2 bytes _)
      λ behind _. >>=-ne-err (uint16 behind) _ _ (uint16-ne-err behind _) λ sub_len _. ground arith

field_error_fuel : (bytes : List ℕ) → unmarshal_field_error bytes ≢ err exhausted
unfolding unmarshal_field_error
field_error_fuel bytes =
    >>=-ne-err (has_enough_bytes 288 4 (length bytes) true) _ _
      (has_enough_bytes-ne-exhausted 288 4 (length bytes) true)
      λ _ _. >>=-ne-err (uint16 bytes) _ _ (uint16-ne-err bytes _) λ index _.
        >>=-ne-err (slice_from 2 bytes) _ _ (slice_from-ne-err 2 bytes _)
          λ behind _. >>=-ne-err (uint16 behind) _ _ (uint16-ne-err behind _) λ code _ e. cc

at_end-ne-exhausted : (bytes : List ℕ) (found : Found) → at_end bytes found ≢ err exhausted
unfolding at_end
at_end-ne-exhausted bytes found = ground arith

-- One round of the loop: both the sub-parameter and what follows it are shorter.
taken_apart :
    {A : Type 0} {fuel : ℕ} (n : ℕ) (bytes : List ℕ) (read : List ℕ → Outcome CodecError A)
    (next : A → List ℕ → Outcome CodecError Found)
    → length bytes < suc fuel
    → ((body : List ℕ) → length body < fuel → read body ≢ err exhausted)
    → ((a : A) (rest : List ℕ) → length rest < fuel → next a rest ≢ err exhausted)
    → (slice 4 n bytes >>= λ body. read body >>= λ a. slice_from n bytes >>= next a) ≢ err exhausted
taken_apart n bytes read next h keep go =
    >>=-ne-err (slice 4 n bytes) _ _ (slice-ne-err 4 n bytes _) λ body b.
      let inside = slice-eq-ok 4 n bytes body b in
      >>=-ne-err (read body) _ _ (keep body (omega arith)) λ a _.
        >>=-ne-err (slice_from n bytes) _ _ (slice_from-ne-err n bytes _)
          λ rest r. go a rest (omega (arith, slice_from-eq-ok n bytes rest r))

mutual
  unfolding unmarshal_parameter_error param_group

  unmarshal_fuel :
      (fuel : ℕ) (bytes : List ℕ)
      → length bytes < fuel
      → unmarshal_parameter_error fuel bytes ≢ err exhausted
  unmarshal_fuel zero bytes h = absurd (omega arith)
  unmarshal_fuel (suc fuel) bytes h =
      >>=-ne-err (has_enough_bytes 289 4 (length bytes) false) _ _
        (has_enough_bytes-ne-exhausted 289 4 (length bytes) false)
        λ _ _. >>=-ne-err (uint16 bytes) _ _ (uint16-ne-err bytes _) λ t _.
          >>=-ne-err (slice_from 2 bytes) _ _ (slice_from-ne-err 2 bytes _) λ behind _.
            >>=-ne-err (uint16 behind) _ _ (uint16-ne-err behind _) λ code _.
              >>=-ne-err (slice_from 4 bytes) _ _ (slice_from-ne-err 4 bytes _) λ rest e.
                >>=-ne-err (param_group fuel nothing_found rest) _ _
                  (group_fuel fuel rest nothing_found
                    (omega (arith, slice_from-eq-ok 4 bytes rest e)))
                  λ found _ q. cc

  group_fuel :
      (fuel : ℕ) (bytes : List ℕ) (found : Found)
      → length bytes < fuel
      → param_group fuel found bytes ≢ err exhausted
  group_fuel zero bytes found h = absurd (omega arith)
  group_fuel (suc fuel) bytes found h = elim (Bool-cases (leb 4 (length bytes))) [
    | inr short ↦ rw (short, param_group) (at_end-ne-exhausted bytes found)
    | inl long ↦
        rw (long, param_group)
          (>>=-ne-err (next_tlv bytes) _ _ (next_tlv-ne-exhausted bytes) λ (pt, n) _.
            elim (Bool-cases (pt == 289)) [
              | inl inner ↦ rw inner (
                  taken_apart n bytes (unmarshal_parameter_error fuel) _ h
                    (λ body b. unmarshal_fuel fuel body b) λ p rest r. group_fuel fuel rest _ r)
              | inr other ↦ rw other (elim (Bool-cases (pt == 288)) [
                | inl field ↦ rw field (
                    taken_apart n bytes unmarshal_field_error _ h (λ body _. field_error_fuel body)
                      λ p rest r. group_fuel fuel rest _ r)
                | inr unknown ↦ rw unknown (at_end-ne-exhausted bytes found)
              ])
            ])
  ]

-- `ParameterError.UnmarshalBinary` ends on every input: no nesting runs out of the fuel.
pub read_parameter_error-ne-exhausted :
    (bytes : List ℕ) → read_parameter_error bytes ≢ err exhausted
unfolding read_parameter_error
read_parameter_error-ne-exhausted bytes = unmarshal_fuel _ bytes (omega arith)

-- `LLRPStatus.UnmarshalBinary` ends on every input: no nesting of parameter errors runs out of the model's
-- fuel.
pub unmarshal_status-ne-exhausted : (bytes : List ℕ) → unmarshal_status bytes ≢ err exhausted
unfolding unmarshal_status
unmarshal_status-ne-exhausted bytes =
    >>=-ne-err (has_enough_bytes 287 4 (length bytes) false) _ _
      (has_enough_bytes-ne-exhausted 287 4 (length bytes) false)
      λ _ _. >>=-ne-err (uint16 bytes) _ _ (uint16-ne-err bytes _) λ status _.
        >>=-ne-err (slice_from 2 bytes) _ _ (slice_from-ne-err 2 bytes _) λ behind _.
          >>=-ne-err (uint16 behind) _ _ (uint16-ne-err behind _) λ n _.
            >>=-ne-err (slice_from 4 bytes) _ _ (slice_from-ne-err 4 bytes _) λ text _.
              >>=-ne-err (guard (leb n (length text)) (declares_too_much n (length text))) _ _
                (ground arith)
                λ _ _.
                  >>=-ne-err (slice 4 (n + 4) bytes) _ _ (slice-ne-err 4 (n + 4) bytes _) λ text' _.
                    >>=-ne-err (slice_from (n + 4) bytes) _ _ (slice_from-ne-err (n + 4) bytes _)
                      λ rest _.
                        >>=-ne-err (param_group (suc (length rest)) nothing_found rest) _ _
                          (group_fuel (suc (length rest)) rest nothing_found (omega arith))
                          λ found _ q. cc
