-- ===== src/Llrp/Params/Sizes.antt =====
-- The size in a header is the number of bytes that are written, so that a reader finds the next parameter.
use device_rfid_llrp_go.Prelude.{
  ℕ, suc, ◌+◌, ◌≡◌, refl, false, List, ◌∷◌, ◌++◌, arith, length, length-append, ok, IsU16,
  take-append, drop-append,
}
use device_rfid_llrp_go.Llrp.Bytes.{be16, slice_from, slice}
use device_rfid_llrp_go.Llrp.Params.{
  ParamHeader, ParamHeaders, header, nil, cons, size, is_tv, head_bytes, encode_param,
  encode_params, next_tlv, CodecError,
}

abbrev pub sizes : ParamHeaders → ℕ
sizes nil = 0
sizes (cons h hs) = size h + sizes hs

-- Every header is a TLV header whose size counts its four bytes, its fields and its sub-parameters.
abbrev mutual
  pub IsSized : ParamHeader → Type 0
  IsSized (header t sz fields subs) =
      (is_tv t ≡ false) × (sz ≡ 4 + length fields + sizes subs) × AllSized subs

  pub AllSized : ParamHeaders → Type 0
  AllSized nil = Unit
  AllSized (cons h hs) = IsSized h × AllSized hs

length-head_bytes : (t sz : ℕ) → is_tv t ≡ false → length (head_bytes t sz) ≡ 4
unfolding head_bytes
length-head_bytes t sz h = ground arith

mutual
  unfolding encode_param encode_params

  length-encode : (h : ParamHeader) → IsSized h → length (encode_param h) ≡ size h
  length-encode (header t sz fields subs) (tlv, sum, below) = omega (
    arith,
    length-append (head_bytes t sz) (fields ++ encode_params subs),
    length-append fields (encode_params subs),
    length-head_bytes t sz tlv,
    length-encode_all subs below,
  )

  length-encode_all : (hs : ParamHeaders) → AllSized hs → length (encode_params hs) ≡ sizes hs
  length-encode_all nil h = refl
  length-encode_all (cons h hs) (one, rest) = omega (
    arith,
    length-append (encode_param h) (encode_params hs),
    length-encode h one,
    length-encode_all hs rest,
  )

-- The bytes of a parameter are as many as its header says.
pub length-encode_param : (h : ParamHeader) → IsSized h → length (encode_param h) ≡ size h
length-encode_param = length-encode

pub length-encode_params : (hs : ParamHeaders) → AllSized hs → length (encode_params hs) ≡ sizes hs
length-encode_params = length-encode_all

unfoldable pub four_more : ℕ → ℕ
four_more n = suc (suc (suc (suc n)))

pub slice-four :
    (a b c d sz : ℕ) (body rest : List ℕ)
    → sz ≡ four_more (length body)
    → slice {E = CodecError} 4 sz (a ∷ b ∷ c ∷ d ∷ (body ++ rest)) ≡ ok body
unfolding four_more
slice-four a b c d sz body rest e =
    rw e (ground (arith, take-append body rest, length-append body rest))

pub slice_from-four :
    (a b c d sz : ℕ) (body rest : List ℕ)
    → sz ≡ four_more (length body)
    → slice_from {E = CodecError} sz (a ∷ b ∷ c ∷ d ∷ (body ++ rest)) ≡ ok rest
unfolding four_more
slice_from-four a b c d sz body rest e =
    rw e (ground (arith, drop-append body rest, length-append body rest))

-- A TLV parameter in front of what follows it.
abbrev pub framed : ℕ → ℕ → List ℕ → List ℕ → List ℕ
framed t sz body rest = (be16 t ++ be16 sz) ++ (body ++ rest)

module _ (t sz : ℕ) (body rest : List ℕ) (st : IsU16 t) (ss : IsU16 sz)
    (whole : sz ≡ 4 + length body) where
  pub next_tlv-framed : next_tlv (framed t sz body rest) ≡ ok (t, sz)
  unfolding next_tlv
  next_tlv-framed = ground (arith, length-append body rest)

  pub slice-framed : slice {E = CodecError} 4 sz (framed t sz body rest) ≡ ok body
  slice-framed = slice-four _ _ _ _ sz body rest (unfold four_more in omega arith)

  pub slice_from-framed : slice_from {E = CodecError} sz (framed t sz body rest) ≡ ok rest
  slice_from-framed = slice_from-four _ _ _ _ sz body rest (unfold four_more in omega arith)
