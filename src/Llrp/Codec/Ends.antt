-- ===== src/Llrp/Codec/Ends.antt =====
-- The loop over sub-parameters ends, where each of its readers does and looks at the declared length.
use device_rfid_llrp_go.Prelude.{
  ℕ, zero, suc, ◌≤◌, ◌<◌, ◌≡◌, ◌≢◌, refl, Bool, true, false, if◌then◌else◌, Bool-cases, inl, inr,
  Option, none, some, List, [], ◌∷◌, subst, arith, leb, length, ◌==◌, Outcome, ok, err, ◌>>=◌,
  >>=-ne-err,
}
use device_rfid_llrp_go.Llrp.Bytes.{
  uint8, uint16, slice, slice_from, slice_from-eq-ok, slice-ne-err, slice_from-ne-err,
  uint16-ne-err,
}
use device_rfid_llrp_go.Llrp.Params.{CodecError, next_tlv, has_enough_bytes}
use device_rfid_llrp_go.Llrp.Fields.{Read, Cases, byte_at, group, within}
use device_rfid_llrp_go.Llrp.ParamTypes.{param_c1g2_lock_payload}
use device_rfid_llrp_go.Llrp.Codec.OpSpecs.{C1g2Lock, unmarshal_c1g2_lock_payload, c1g2_lock_group1}

-- Each reader of the group ends, and gives a value only if the declared length counts the header.
abbrev pub IsStrict : {A : Type 0} → Cases A → Type 0
IsStrict {A = A} cases =
    (pt : ℕ) (p : A) (read : ℕ → Read A)
    → cases pt p ≡ some read
    → (n : ℕ) (bytes : List ℕ)
    → (read n bytes ≢ err CodecError.exhausted) × ((q : A) → read n bytes ≡ ok q → 4 ≤ n)

into_within-ok :
    {A B : Type 0} (read : Read B) (set : B → A) (n : ℕ) (bytes : List ℕ) (q : A)
    → (within read n bytes >>= λ x. ok (set x)) ≡ ok q
    → 4 ≤ n
into_within-ok read set n bytes q e = ground arith

into_within-ne-exhausted :
    {A B : Type 0} (read : Read B) (set : B → A) (n : ℕ) (bytes : List ℕ)
    → ((xs : List ℕ) → read xs ≢ err CodecError.exhausted)
    → (within read n bytes >>= λ x. ok (set x)) ≢ err CodecError.exhausted
into_within-ne-exhausted read set n bytes e =
    >>=-ne-err (within read n bytes) _ _
      (>>=-ne-err (slice 4 n bytes) _ _ (slice-ne-err 4 n bytes _) λ body _. e body) λ x _ q. cc

-- One round looks for a reader, which the type may have or not.
some_or-ne-err :
    {A B : Type 0} (c : Option A) (otherwise : Outcome CodecError B) (f : A → Outcome CodecError B)
    (e : CodecError)
    → otherwise ≢ err e
    → ((x : A) → c ≡ some x → f x ≢ err e)
    → (elim c [ none ↦ otherwise | some x ↦ f x ]) ≢ err e
some_or-ne-err none otherwise f e h k = h
some_or-ne-err (some x) otherwise f e h k = k x refl

next_tlv_ends : (bytes : List ℕ) → next_tlv bytes ≢ err CodecError.exhausted
unfolding next_tlv
next_tlv_ends bytes = >>=-ne-err (uint16 bytes) _ _ (uint16-ne-err bytes _) λ pt _.
    >>=-ne-err (slice_from 2 bytes) _ _ (slice_from-ne-err 2 bytes _)
      λ behind _. >>=-ne-err (uint16 behind) _ _ (uint16-ne-err behind _) λ sub_len _. ground arith

-- The loop over the sub-parameters of a group ends on every input, with fuel that counts the bytes, where each of the
-- group's readers ends and gives a value only for a declared length of four bytes at least.
pub group-ends :
    {A : Type 0} (cases : Cases A) (fuel : ℕ) (p : A) (bytes : List ℕ)
    → IsStrict cases
    → length bytes < fuel
    → group fuel cases p bytes ≢ err CodecError.exhausted
unfolding group
group-ends cases zero p bytes s l = absurd (omega arith)
group-ends cases (suc fuel) p bytes s l = elim (Bool-cases (leb 4 (length bytes))) [
  | inr short ↦ rw (short, group) (λ e. cc)
  | inl long ↦
      rw (long, group)
        (>>=-ne-err (next_tlv bytes) _ _ (next_tlv_ends bytes) λ (pt, n) _.
          some_or-ne-err (cases pt p) _ _ _ (λ e. cc)
            λ read found. >>=-ne-err (read n bytes) _ _ ((s pt p read found n bytes).0) λ q given.
              >>=-ne-err (slice_from n bytes) _ _ (slice_from-ne-err n bytes _) λ rest r.
                group-ends cases fuel q rest s (
                  omega (
                    arith,
                    (s pt p read found n bytes).1 q given,
                    slice_from-eq-ok n bytes rest r,
                  )))
]

has_enough_bytes_ends :
    (pt n got : ℕ) (exact : _) → has_enough_bytes pt n got exact ≢ err CodecError.exhausted
unfolding has_enough_bytes
has_enough_bytes_ends pt n got exact = ground arith

uint8_ends : (bytes : List ℕ) → uint8 bytes ≢ err CodecError.exhausted
uint8_ends [] = ground arith
uint8_ends (a ∷ rest) = ground arith

byte_at_ends : (n : ℕ) (bytes : List ℕ) → byte_at n bytes ≢ err CodecError.exhausted
byte_at_ends n bytes =
    >>=-ne-err (slice_from n bytes) _ _ (slice_from-ne-err n bytes _) λ behind _. uint8_ends behind

unmarshal_c1g2_lock_payload_ends :
    (bytes : List ℕ) → unmarshal_c1g2_lock_payload bytes ≢ err CodecError.exhausted
unfolding unmarshal_c1g2_lock_payload has_enough_bytes
unmarshal_c1g2_lock_payload_ends bytes =
    >>=-ne-err (has_enough_bytes param_c1g2_lock_payload 2 (length bytes) true) _ _
      (has_enough_bytes_ends param_c1g2_lock_payload 2 (length bytes) true)
      λ _ _.
        >>=-ne-err (byte_at 0 bytes) _ _ (byte_at_ends 0 bytes)
          λ a _. >>=-ne-err (byte_at 1 bytes) _ _ (byte_at_ends 1 bytes) λ b _ q. cc

if_some : {R : Type 0} (b : Bool) (a r : R) → (if b then some a else none) ≡ some r → a ≡ r
if_some true a r e = cc
if_some false a r e = absurd (cc)

-- The loop in `C1G2Lock.UnmarshalBinary` is of this kind.
pub c1g2_lock_group1-IsStrict : IsStrict c1g2_lock_group1
unfolding c1g2_lock_group1
c1g2_lock_group1-IsStrict pt p read e n bytes =
    subst
      (λ (r : ℕ → Read C1g2Lock).
        (r n bytes ≢ err CodecError.exhausted) × ((q : C1g2Lock) → r n bytes ≡ ok q → 4 ≤ n))
      (if_some (pt == param_c1g2_lock_payload) _ read e)
      (
        into_within-ne-exhausted unmarshal_c1g2_lock_payload _ n bytes
            unmarshal_c1g2_lock_payload_ends,
        into_within-ok unmarshal_c1g2_lock_payload _ n bytes,
      )
