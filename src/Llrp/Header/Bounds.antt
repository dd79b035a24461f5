-- ===== src/Llrp/Header/Bounds.antt =====
-- Which headers are read and written: the branches of `UnmarshalBinary`, and the ranges of its fields.
use device_rfid_llrp_go.Prelude.{
  ℕ, ◌^◌, ◌≤◌, ◌<◌, ◌≡◌, true, none, some, List, [], ◌∷◌, arith, length, All, get_or, suc, zero,
  ◌↔◌, IsU8, IsU32, ◌≢◌, ◌⊎◌,
}
use device_rfid_llrp_go.Llrp.MessageTypes.{is_valid}
use device_rfid_llrp_go.Llrp.Header.{
  Header, too_short, unmarshal_binary, validate_header, read_fields, max_payload_sz,
}

get_or-IsU8 : (buf : List ℕ) (i : ℕ) → All IsU8 buf → get_or buf i 0 < 256
get_or-IsU8 [] i h = omega arith
get_or-IsU8 (x ∷ xs) zero h = h.0
get_or-IsU8 (x ∷ xs) (suc i) h = get_or-IsU8 xs i h.1

read_fields-range :
    (buf : List ℕ)
    → All IsU8 buf
    → ((read_fields buf).version < 8)
      × ((read_fields buf).typ < 2 ^ 10)
      × IsU32 (read_fields buf).payload_len
      × IsU32 (read_fields buf).id
unfolding read_fields
read_fields-range buf h = omega (
  arith,
  get_or-IsU8 buf 0 h,
  get_or-IsU8 buf 1 h,
  get_or-IsU8 buf 2 h,
  get_or-IsU8 buf 3 h,
  get_or-IsU8 buf 4 h,
  get_or-IsU8 buf 5 h,
  get_or-IsU8 buf 6 h,
  get_or-IsU8 buf 7 h,
  get_or-IsU8 buf 8 h,
  get_or-IsU8 buf 9 h,
)

-- A header that is read from bytes has a version of three bits, a type of ten, an ID that is a uint32 and a
-- payload length that `validateHeader` allows, and at least ten bytes were there.
pub unmarshal_binary_range :
    (old hd : Header) (buf : List ℕ)
    → All IsU8 buf
    → unmarshal_binary old buf ≡ (hd, none)
    → (hd.version < 8)
      × (hd.typ < 2 ^ 10)
      × (hd.payload_len ≤ max_payload_sz)
      × IsU32 hd.id
      × (10 ≤ length buf)
unfolding unmarshal_binary
unmarshal_binary_range old hd buf h e = ground (arith, read_fields-range buf h)

-- `Header.UnmarshalBinary` returns an error exactly for fewer than ten bytes, or for a length field below
-- ten; it checks nothing else.
pub unmarshal_binary_refuses :
    (old : Header) (buf : List ℕ)
    → ((unmarshal_binary old buf).1 ≢ none)
      ↔ (length buf < 10 ⊎ (10 ≤ length buf) × ((read_fields buf).payload_len < 10))
unfolding unmarshal_binary
unmarshal_binary_refuses old buf = ground arith

pub unmarshal_binary_short :
    (old : Header) (buf : List ℕ)
    → length buf < 10
    → unmarshal_binary old buf ≡ (old, some (too_short (length buf)))
unfolding unmarshal_binary
unmarshal_binary_short old buf h = ground arith

-- `IsValid` is the type check of `validateHeader`, and that the type is not 0.
pub is_valid-iff-validate_header :
    (t : ℕ) → (is_valid t ≡ true) ↔ ((validate_header 0 t ≡ none) × (t ≢ 0))
unfolding is_valid validate_header
is_valid-iff-validate_header t = ground arith
