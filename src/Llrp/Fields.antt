-- ===== src/Llrp/Fields.antt =====
-- What the generated readers and writers of parameters have in common (pkg/llrp/generated_unmarshal.go,
-- generated_encoder.go): fields at an offset, arrays, required, optional and repeated sub-parameters.
-- A signed field is kept as the bits of its two's complement.
pub mod Coded
pub mod Groups
pub mod Sized
pub mod Arrays
use device_rfid_llrp_go.Prelude.{
  ℕ, zero, suc, ◌+◌, ◌-◌, ◌*◌, ◌/◌, ◌%◌, ◌^◌, Bool, true, false, not, Option, none, some, List, [],
  ◌∷◌, ◌++◌, leb, ◌==◌, if◌then◌else◌, length, take, drop, Outcome, ok, err, ◌>>=◌, ◌>>◌, guard,
}
use device_rfid_llrp_go.Llrp.Bytes.{be16, be32, uint8, uint16, uint32, uint64, slice, slice_from}
use device_rfid_llrp_go.Llrp.Params.{
  ParamHeader, ParamHeaders, nil, cons, size, CodecError, next_tlv,
}

abbrev pub Read : Type 0 → Type 0
Read A = List ℕ → Outcome CodecError A

-- `data[i]`, and a number read from `data[i:]`.
abbrev pub byte_at : ℕ → Read ℕ
byte_at i bytes = slice_from i bytes >>= uint8

abbrev pub uint16_at : ℕ → Read ℕ
uint16_at i bytes = slice_from i bytes >>= uint16

abbrev pub uint32_at : ℕ → Read ℕ
uint32_at i bytes = slice_from i bytes >>= uint32

abbrev pub uint64_at : ℕ → Read ℕ
uint64_at i bytes = slice_from i bytes >>= uint64

-- `b>>k&1 != 0`, and `b>>7 != 0`
abbrev pub has_bit : ℕ → ℕ → Bool
has_bit k b = not (b / 2 ^ k % 2 == 0)

abbrev pub top_bit : ℕ → Bool
top_bit b = not (b / 2 ^ 7 == 0)

abbrev pub uint1 : Read Bool
uint1 bytes = uint8 bytes >>= λ b. ok (top_bit b)

-- An array of bytes behind its length, which stands at `i`, and what follows it. Go's case of length 0
-- leaves the slice nil.
unfoldable pub byte_array : ℕ → Read (List ℕ × List ℕ)
byte_array i bytes = do
  n ← uint16_at i bytes
  behind ← slice_from (i + 2) bytes
  guard (leb n (length behind)) (CodecError.declares_too_much n (length behind))
  ok (take n behind, drop n behind)

-- Its elements are `width` bytes each.
unfoldable pub elements : ℕ → Read ℕ → ℕ → Read (List ℕ)
elements width read zero bytes = ok []
elements width read (suc n) bytes = do
  x ← read bytes
  rest ← slice_from width bytes
  xs ← elements width read n rest
  ok (x ∷ xs)

unfoldable pub array_at : ℕ → Read ℕ → ℕ → Read (List ℕ × List ℕ)
unfolding elements
array_at width read i bytes = do
  n ← uint16_at i bytes
  behind ← slice_from (i + 2) bytes
  guard (leb (n * width) (length behind)) (CodecError.declares_too_much n (length behind))
  xs ← elements width read n behind
  ok (xs, drop (n * width) behind)

abbrev pub uint16_array : ℕ → Read (List ℕ × List ℕ)
uint16_array = array_at 2 uint16

abbrev pub uint32_array : ℕ → Read (List ℕ × List ℕ)
uint32_array = array_at 4 uint32

-- The bytes of so many bits: `1 + ((int(n) - 1) >> 3)`, an arithmetic shift.
abbrev pub bit_bytes : ℕ → ℕ
bit_bytes zero = 0
bit_bytes (suc n) = 1 + n / 2 ^ 3

-- A bit array of `n` bits whose bytes start at `i`.
unfoldable pub bit_array : ℕ → ℕ → Read (List ℕ × List ℕ)
bit_array n i bytes = do
  behind ← slice_from i bytes
  guard (leb (bit_bytes n) (length behind)) (CodecError.declares_too_much n (length behind))
  ok (take (bit_bytes n) behind, drop (bit_bytes n) behind)

-- Behind the last sub-parameter: no byte may remain.
abbrev pub finished : {A : Type 0} → List ℕ → A → Outcome CodecError A
finished bytes p = guard (length bytes == 0) (CodecError.trailing (length bytes)) >> ok p

-- `if len(data) == 0 { return nil }`
abbrev pub unless_empty : {A : Type 0} → List ℕ → A → Outcome CodecError A → Outcome CodecError A
unless_empty bytes p next = elim (length bytes == 0) [ true ↦ ok p | false ↦ next ]

-- A sub-parameter of which `data[4:subLen]` is read,
abbrev pub within : {A : Type 0} → Read A → ℕ → Read A
within read sub_len bytes = slice 4 sub_len bytes >>= read

-- and one of a single number, which is read from `data[4:]` whatever the length says.
abbrev pub beyond : {A : Type 0} → Read A → ℕ → Read A
beyond read sub_len bytes = slice_from 4 bytes >>= read

-- The length of the sub-parameter in front, the check that it is all there, and what follows it.
unfoldable pub sub_parameter : {A : Type 0} → (ℕ → Read A) → Read (A × List ℕ)
sub_parameter read bytes = do
  sub_len ← uint16_at 2 bytes
  guard (leb sub_len (length bytes)) (CodecError.declares_too_much sub_len (length bytes))
  p ← read sub_len bytes
  rest ← slice_from sub_len bytes
  ok (p, rest)

-- A sub-parameter that has to stand here,
unfoldable pub required : {A : Type 0} → ℕ → (ℕ → Read A) → Read (A × List ℕ)
unfolding sub_parameter
required t read bytes = do
  sub_type ← uint16 bytes
  guard (sub_type == t) (CodecError.unexpected_param sub_type)
  sub_parameter read bytes

-- and one that may.
unfoldable pub optional : {A : Type 0} → ℕ → (ℕ → Read A) → Read (Option A × List ℕ)
unfolding sub_parameter
optional t read bytes = do
  sub_type ← uint16 bytes
  elim (sub_type == t) [
    | false ↦ ok (none, bytes)
    | true ↦ do (p, rest) ← sub_parameter read bytes; ok (some p, rest)
  ]

-- What a `switch` on the type of a sub-parameter does to the receiver; `none` is its default.
abbrev pub Cases : Type 0 → Type 0
Cases A = ℕ → A → Option (ℕ → Read A)

abbrev pub into : {A B : Type 0} → (ℕ → Read A) → (A → B) → Option (ℕ → Read B)
into read set = some (λ sub_len bytes. read sub_len bytes >>= λ x. ok (set x))

-- One of several sub-parameters, which has to stand here.
unfoldable pub one_of : {A : Type 0} → Cases A → A → Read (A × List ℕ)
unfolding sub_parameter
one_of cases p bytes = do
  pt ← uint16 bytes
  elim (cases pt p) [
    | none ↦ err (CodecError.unexpected_param pt)
    | some read ↦ sub_parameter read bytes
  ]

-- The loop over sub-parameters, up to one that is not of the group. Its fuel counts the bytes.
unfoldable pub group : {A : Type 0} → ℕ → Cases A → A → Read (A × List ℕ)
unfolding next_tlv
group zero cases p bytes = err CodecError.exhausted
group (suc fuel) cases p bytes = elim (leb 4 (length bytes)) [
  | false ↦ ok (p, bytes)
  | true ↦ do
    (pt, sub_len) ← next_tlv bytes
    elim (cases pt p) [
      | none ↦ ok (p, bytes)
      | some read ↦ do
        next ← read sub_len bytes
        rest ← slice_from sub_len bytes
        group fuel cases next rest
    ]
]

-- The type of a parameter whose kind its first bit tells.
unfoldable pub mixed_type : Read ℕ
mixed_type bytes = do
  first ← uint8 bytes
  elim (top_bit first) [
    | true ↦ ok (first % 2 ^ 7)
    | false ↦ do
      guard (leb 4 (length bytes)) (CodecError.not_enough 0 4 (length bytes))
      uint16 bytes
  ]

-- `ParamType(data[0] & 0x7F)`
abbrev pub tv_type : Read ℕ
tv_type bytes = uint8 bytes >>= λ first. ok (first % 2 ^ 7)

-- The cases of such a loop, which leave what follows the parameter.
abbrev pub MixedCases : Type 0 → Type 0
MixedCases A = ℕ → A → Option (Read (A × List ℕ))

abbrev pub into_rest : {A B : Type 0} → Read (A × List ℕ) → (A → B) → Option (Read (B × List ℕ))
into_rest read set = some (λ bytes. read bytes >>= λ (x, rest). ok (set x, rest))

-- A TV parameter of `n` bytes with its type, of which `data[1:]` or `data[1:n]` is read.
abbrev pub tv : {A : Type 0} → ℕ → Read A → Read (A × List ℕ)
tv n read bytes = do
  body ← slice_from 1 bytes
  p ← read body
  rest ← slice_from n bytes
  ok (p, rest)

abbrev pub tv_within : {A : Type 0} → ℕ → Read A → Read (A × List ℕ)
tv_within n read bytes = do
  body ← slice 1 n bytes
  p ← read body
  rest ← slice_from n bytes
  ok (p, rest)

-- One of several parameters of either kind, which has to stand here.
unfoldable pub mixed_one_of : {A : Type 0} → MixedCases A → A → Read (A × List ℕ)
mixed_one_of cases p bytes = do
  pt ← mixed_type bytes
  elim (cases pt p) [ none ↦ err (CodecError.unexpected_param pt) | some read ↦ read bytes ]

-- A TV parameter that may stand here. The bytes are not passed over.
unfoldable pub optional_tv_kept : {A : Type 0} → ℕ → ℕ → Read A → Read (Option A)
optional_tv_kept t n read bytes = do
  sub_type ← tv_type bytes
  elim (sub_type == t) [
    | false ↦ ok none
    | true ↦ slice 1 n bytes >>= λ body. read body >>= λ p. ok (some p)
  ]

-- The loop over parameters of either kind.
unfoldable pub mixed_group : {A : Type 0} → Read ℕ → ℕ → MixedCases A → A → Read (A × List ℕ)
mixed_group type_of zero cases p bytes = err CodecError.exhausted
mixed_group type_of (suc fuel) cases p bytes = elim (leb 1 (length bytes)) [
  | false ↦ ok (p, bytes)
  | true ↦ do
    pt ← type_of bytes
    elim (cases pt p) [
      | none ↦ ok (p, bytes)
      | some read ↦ do (next, rest) ← read bytes; mixed_group type_of fuel cases next rest
    ]
]

-- The writers: `byte(v)`, `b2b(flag) << k`, the sizes, which are uint16s, and the sub-parameters in order.
abbrev pub u8 : ℕ → ℕ
u8 n = n % 2 ^ 8

abbrev pub u16 : ℕ → ℕ
u16 n = n % 2 ^ 16

abbrev pub b2b : Bool → ℕ → ℕ
b2b true k = 2 ^ k
b2b false k = 0

abbrev pub each_be16 : List ℕ → List ℕ
each_be16 [] = []
each_be16 (x ∷ xs) = be16 x ++ each_be16 xs

abbrev pub each_be32 : List ℕ → List ℕ
each_be32 [] = []
each_be32 (x ∷ xs) = be32 x ++ each_be32 xs

infixr 5 ◌+++◌
abbrev pub ◌+++◌ : ParamHeaders → ParamHeaders → ParamHeaders
nil +++ ks = ks
cons h hs +++ ks = cons h (hs +++ ks)

abbrev pub one : ParamHeader → ParamHeaders
one h = cons h nil

abbrev pub every : {A : Type 0} → (A → ParamHeader) → List A → ParamHeaders
every f [] = nil
every f (x ∷ xs) = cons (f x) (every f xs)

abbrev pub maybe : {A : Type 0} → (A → ParamHeader) → Option A → ParamHeaders
maybe f none = nil
maybe f (some x) = one (f x)

-- `ph.sz += sh.sz` for every sub-parameter.
abbrev pub add_sizes : ℕ → ParamHeaders → ℕ
add_sizes sz nil = sz
add_sizes sz (cons h hs) = add_sizes (u16 (sz + size h)) hs
