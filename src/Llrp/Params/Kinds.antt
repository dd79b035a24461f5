-- ===== src/Llrp/Params/Kinds.antt =====
-- A reader tells the two kinds of parameters apart by the top bit of the first byte.
use device_rfid_llrp_go.Prelude.{
  ℕ, ◌+◌, ◌/◌, ◌%◌, ◌<◌, ◌≡◌, refl, true, [], ◌∷◌, arith, all_below, all_below-lt, ◌==◌, ==_iff,
  ltb, if◌then◌else◌, bit_or, ◌⊎◌, ◌↔◌,
}
use device_rfid_llrp_go.Llrp.Params.{is_tv, is_tlv, is_valid, head_bytes}

top_table : all_below 128 (λ t. bit_or t 0x80 == t + 128) ≡ true
unfolding all_below
top_table = refl

set_top_bit : (t : ℕ) → t < 128 → bit_or t 0x80 ≡ t + 128
set_top_bit t h = (==_iff _ _).0 (all_below-lt 128 _ t top_table h)

-- The valid parameter types are those of the two kinds, TV and TLV, less the reserved ones, and no type is
-- of both kinds.
pub is_valid_kinds :
    (t : ℕ)
    → ((is_valid t ≡ true) ↔ (((is_tv t ≡ true) ⊎ (is_tlv t ≡ true)) × ((t < 900) ⊎ (999 < t))))
      × ¬ ((is_tv t ≡ true) × (is_tlv t ≡ true))
unfolding is_valid is_tv is_tlv
is_valid_kinds t = ground arith

-- What `encodeParams` writes in front of a valid parameter: a TV type as one byte with the top bit set,
-- and a TLV type and its size as four bytes of which the first has the top bit clear.
pub head_bytes_kind :
    (t sz : ℕ)
    → is_valid t ≡ true
    → head_bytes t sz ≡ (
        if ltb t 128
        then (t + 128) ∷ []
        else (t / 256) ∷ (t % 256) ∷ (sz / 256 % 256) ∷ (sz % 256) ∷ [])
unfolding head_bytes is_valid is_tv
head_bytes_kind t sz v = ground (arith, set_top_bit t)
