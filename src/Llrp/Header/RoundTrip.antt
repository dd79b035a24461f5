-- ===== src/Llrp/Header/RoundTrip.antt =====
-- A header read back after it was written, and written back after it was read.
use device_rfid_llrp_go.Prelude.{
  ℕ, ◌+◌, ◌-◌, ◌*◌, ◌/◌, ◌%◌, ◌^◌, ◌≤◌, ◌<◌, ◌≡◌, none, List, [], ◌∷◌, ◌++◌, arith, length, All, ok,
  bit_or, IsU8, IsU32, ◌⊎◌,
}
use device_rfid_llrp_go.Prelude.Bits.{bit_or_shifted}
use device_rfid_llrp_go.Llrp.Header.{
  Header, unmarshal_binary, marshal_binary, validate_header, header_bytes, read_fields,
  max_payload_sz,
}

-- A version below 8 and a type below 1024 share no bit.
version_or_typ : (v t : ℕ) → v < 8 → t < 2 ^ 10 → bit_or (v * 2 ^ 10 % 2 ^ 16) t ≡ v * 2 ^ 10 + t
version_or_typ v t hv ht =
    let e : v * 2 ^ 10 % 2 ^ 16 ≡ v * 2 ^ 10 = omega arith in rw e (bit_or_shifted 10 v t ht)

read_fields-header_bytes :
    (h : Header) (rest : List ℕ)
    → h.version < 8
    → h.typ < 2 ^ 10
    → h.payload_len ≤ max_payload_sz
    → IsU32 h.id
    → read_fields (header_bytes h ++ rest) ≡ record h { payload_len = h.payload_len + 10 }
unfolding read_fields header_bytes
read_fields-header_bytes h rest hv ht hp hi =
    rw (version_or_typ h.version h.typ hv ht) (ground arith)

-- What a successful write says of the header, and the bytes that it writes.
pub marshal_binary-eq-ok :
    (h : Header) {bytes : List ℕ}
    → marshal_binary h ≡ ok bytes
    → (validate_header h.payload_len h.typ ≡ none) × (bytes ≡ header_bytes h)
unfolding marshal_binary
marshal_binary-eq-ok h e = ground arith

pub validate_header-eq-none :
    (n t : ℕ)
    → validate_header n t ≡ none
    → (t < 2 ^ 10) × (n ≤ max_payload_sz) × ((t < 900) ⊎ (999 < t))
unfolding validate_header
validate_header-eq-none n t e = ground arith

length-header_bytes : (h : Header) (rest : List ℕ) → 10 ≤ length (header_bytes h ++ rest)
unfolding header_bytes
length-header_bytes h rest = omega arith

pub unmarshal_binary-header_bytes :
    (h old : Header) (rest : List ℕ)
    → h.version < 8
    → h.typ < 2 ^ 10
    → h.payload_len ≤ max_payload_sz
    → IsU32 h.id
    → unmarshal_binary old (header_bytes h ++ rest) ≡ (h, none)
unfolding unmarshal_binary
unmarshal_binary-header_bytes h old rest hv ht hp hi =
    ground (arith, length-header_bytes h rest, read_fields-header_bytes h rest hv ht hp hi)

-- A header that `MarshalBinary` writes is read back by `UnmarshalBinary`, whatever follows it and whatever
-- the receiver held, for a version below 8 and an ID that is a uint32.
pub unmarshal_binary-marshal_binary :
    (h old : Header) (bytes rest : List ℕ)
    → h.version < 8
    → IsU32 h.id
    → marshal_binary h ≡ ok bytes
    → unmarshal_binary old (bytes ++ rest) ≡ (h, none)
unmarshal_binary-marshal_binary h old bytes rest hv hi e =
    let (v, b) = marshal_binary-eq-ok h e in
    let (t, n, _) = validate_header-eq-none h.payload_len h.typ v in
    rw b (unmarshal_binary-header_bytes h old rest hv t n hi)

module _ (a b c d e f g h i j : ℕ) (top : a < 32) where
  abbrev ten : List ℕ
  ten = a ∷ b ∷ c ∷ d ∷ e ∷ f ∷ g ∷ h ∷ i ∷ j ∷ []

  header_bytes-read_fields :
      All IsU8 ten
      → 10 ≤ (read_fields ten).payload_len
      → header_bytes (record (read_fields ten) { payload_len = (read_fields ten).payload_len - 10 })
        ≡ ten
  unfolding header_bytes read_fields
  header_bytes-read_fields r long =
      rw (version_or_typ (a / 4 % 8) ((a * 256 + b) % 1024) (omega arith) (omega arith))
        (ground arith)

  -- Ten bytes without reserved bits that are read as a header which `validateHeader` accepts are written
  -- back unchanged.
  pub marshal_binary-unmarshal_binary :
      (old hd : Header)
      → All IsU8 ten
      → unmarshal_binary old ten ≡ (hd, none)
      → validate_header hd.payload_len hd.typ ≡ none
      → marshal_binary hd ≡ ok ten
  unfolding unmarshal_binary marshal_binary
  marshal_binary-unmarshal_binary old hd r e v = ground (arith, header_bytes-read_fields r)
