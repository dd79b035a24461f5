-- ===== src/Llrp/Fields/Coded.antt =====
-- What it means that a parameter is written and read back, and what the steps of the generated readers do
-- on what was written.
use device_rfid_llrp_go.Prelude.{
  ℕ, ◌+◌, ◌^◌, ◌≤◌, ◌<◌, ◌≡◌, ◌≢◌, refl, sym, ap, ◌∙◌, Bool, true, false, Option, none, some, List,
  [], ◌∷◌, ◌++◌, arith, leb, ◌==◌, length, length-append, Outcome, ok, ◌>>=◌, All, >>=-of-ok, ◌>>◌,
  guard,
}
use device_rfid_llrp_go.Llrp.Bytes.{be16, uint16}
use device_rfid_llrp_go.Llrp.Params.{
  ParamHeader, ParamHeaders, header, nil, cons, size, head_bytes, encode_param, encode_params,
  has_enough_bytes, CodecError,
}
use device_rfid_llrp_go.Llrp.Params.Sizes.{
  IsSized, framed, length-encode_params, slice-framed, slice_from-framed,
}
use device_rfid_llrp_go.Llrp.Fields.{
  Read, within, required, optional, sub_parameter, ◌+++◌, one, maybe, unless_empty, uint16_at,
  finished,
}
use mathlib.Core.List.{append_assoc}

-- The type of a parameter, and the bytes behind its header.
abbrev pub kind : ParamHeader → ℕ
kind (header t sz fields subs) = t

abbrev pub body : ParamHeader → List ℕ
body (header t sz fields subs) = fields ++ encode_params subs

-- The parameter with its header is not longer than its size field can say.
abbrev pub Fits : ParamHeader → Type 0
Fits h = 4 + length (body h) < 2 ^ 16

abbrev pub IfSome : {A : Type 0} → (A → Type 0) → Option A → Type 0
IfSome P none = Unit
IfSome P (some x) = P x

pub IfSome-map :
    {A : Type 0} {P Q : A → Type 0}
    → ((x : A) → P x → Q x)
    → (o : Option A) → IfSome P o
    → IfSome Q o
IfSome-map f none h = tt
IfSome-map f (some x) h = f x h

pub IfSome-all : {A : Type 0} {Q : A → Type 0} → ((x : A) → Q x) → (o : Option A) → IfSome Q o
IfSome-all f none = tt
IfSome-all f (some x) = f x

pub All-map :
    {A : Type 0} {P Q : A → Type 0} → ((x : A) → P x → Q x) → (xs : List A) → All P xs → All Q xs
All-map f [] h = tt
All-map f (x ∷ xs) (h, hs) = (f x h, All-map f xs hs)

-- A TLV parameter whose size is right and fits its field.
abbrev pub IsWritten : ParamHeader → Type 0
IsWritten h = IsSized h × (size h < 2 ^ 16) × (kind h < 2 ^ 16)

-- How a kind of sub-parameter is written and read: its type, its header, and what a reader does with the
-- length and the bytes in front of it.
pub record Coding (B : Type 0) : Type 0 where
  pub of_type : ℕ
  pub head : B → ParamHeader
  pub read : ℕ → Read B

-- `x` is written, and read back whatever follows it.
abbrev pub IsRead : {B : Type 0} → Coding B → B → Type 0
IsRead c x =
    IsWritten (c.head x)
    × (kind (c.head x) ≡ c.of_type)
    × ((rest : List ℕ)
        → c.read (size (c.head x))
            (framed (kind (c.head x)) (size (c.head x)) (body (c.head x)) rest)
          ≡ ok x)

-- The coding of a sub-parameter with an `UnmarshalBinary`,
abbrev pub coding : {B : Type 0} → ℕ → (B → ParamHeader) → Read B → Coding B
coding t head read = record { of_type = t; head = head; read = within read }

-- and that `x` is written, and its body read back.
abbrev pub IsCoded : {B : Type 0} → ℕ → (B → ParamHeader) → Read B → B → Type 0
IsCoded t head read x = IsWritten (head x) × (kind (head x) ≡ t) × (read (body (head x)) ≡ ok x)

pub size-body : (h : ParamHeader) → IsWritten h → size h ≡ 4 + length (body h)
size-body (header t sz fields subs) ((tlv, sum, below), fits, small) =
    omega (arith, length-append fields (encode_params subs), length-encode_params subs below)

pub encode_param-framed :
    (h : ParamHeader) (rest : List ℕ)
    → IsWritten h
    → encode_param h ++ rest ≡ framed (kind h) (size h) (body h) rest
unfolding encode_param head_bytes
encode_param-framed (header t sz fields subs) rest ((tlv, sum, below), fits, small) =
    rw tlv (append_assoc (be16 t ++ be16 sz) (fields ++ encode_params subs) rest)

-- The parameter in front of others.
pub encode_params-cons :
    (h : ParamHeader) (ks : ParamHeaders)
    → IsWritten h
    → encode_params (cons h ks) ≡ framed (kind h) (size h) (body h) (encode_params ks)
unfolding encode_params
encode_params-cons h ks w = encode_param-framed h (encode_params ks) w

pub coding-IsRead :
    {B : Type 0} (t : ℕ) (head : B → ParamHeader) (read : Read B) (x : B)
    → IsCoded t head read x
    → IsRead (coding t head read) x
coding-IsRead t head read x (w, k, r) = (
  w,
  k,
  λ rest.
      rw
        (
          slice-framed (kind (head x)) (size (head x)) (body (head x)) rest (w.2) (w.1)
              (size-body (head x) w),
          r,
        )
        refl,
)

module _ (t sz : ℕ) (content rest : List ℕ) (st : t < 2 ^ 16) (ss : sz < 2 ^ 16)
    (whole : sz ≡ 4 + length content) where
  type-framed : uint16 {E = CodecError} (framed t sz content rest) ≡ ok t
  type-framed = ground arith

  size-framed : uint16_at 2 (framed t sz content rest) ≡ ok sz
  size-framed = ground arith

  fits-framed : leb sz (length (framed t sz content rest)) ≡ true
  fits-framed = ground (arith, length-append content rest)

  module _ {A : Type 0} (read : ℕ → Read A) (p : A)
      (e : read sz (framed t sz content rest) ≡ ok p) where
    sub_parameter-framed : sub_parameter read (framed t sz content rest) ≡ ok (p, rest)
    unfolding sub_parameter
    sub_parameter-framed =
        rw (size-framed, e, slice_from-framed t sz content rest st ss whole, fits-framed) refl

    required-framed : required t read (framed t sz content rest) ≡ ok (p, rest)
    unfolding required
    required-framed =
        >>=-of-ok (uint16 (framed t sz content rest))
          (λ s.
            guard (s == t) (CodecError.unexpected_param s)
            >> sub_parameter read (framed t sz content rest))
          type-framed (ground (arith, sub_parameter-framed))

    optional-framed : optional t read (framed t sz content rest) ≡ ok (some p, rest)
    unfolding optional
    optional-framed =
        >>=-of-ok (uint16 (framed t sz content rest))
          (λ s. elim (s == t) [
            | false ↦ ok (none, framed t sz content rest)
            | true ↦
                sub_parameter read (framed t sz content rest) >>= λ (q, behind). ok (some q, behind)
          ])
          type-framed (ground (arith, sub_parameter-framed))

module _ {B : Type 0} (c : Coding B) (x : B) (i : IsRead c x) (ks : ParamHeaders) where
  pub required-cons :
      required (c.of_type) (c.read) (encode_params (cons (c.head x) ks)) ≡ ok (x, encode_params ks)
  required-cons =
      rw (encode_params-cons (c.head x) ks (i.0), sym (i.1))
        (required-framed (kind (c.head x)) (size (c.head x)) (body (c.head x)) (encode_params ks)
          (i.0.2) (i.0.1) (size-body (c.head x) (i.0)) (c.read) x (i.2 (encode_params ks)))

  pub optional-cons :
      optional (c.of_type) (c.read) (encode_params (cons (c.head x) ks))
      ≡ ok (some x, encode_params ks)
  optional-cons =
      rw (encode_params-cons (c.head x) ks (i.0), sym (i.1))
        (optional-framed (kind (c.head x)) (size (c.head x)) (body (c.head x)) (encode_params ks)
          (i.0.2) (i.0.1) (size-body (c.head x) (i.0)) (c.read) x (i.2 (encode_params ks)))

pub required_last :
    {B : Type 0} (c : Coding B) (x : B)
    → IsRead c x
    → required (c.of_type) (c.read) (encode_params (cons (c.head x) nil)) ≡ ok (x, [])
unfolding encode_params
required_last c x i = required-cons c x i nil

-- Whether or not the rest is empty, the steps that follow decide, if they leave the receiver of an empty rest.
pub unless_empty-next :
    {A : Type 0} (bytes : List ℕ) (p : A) (next : List ℕ → Outcome CodecError A)
    → next [] ≡ ok p
    → unless_empty bytes p (next bytes) ≡ next bytes
unless_empty-next [] p next e = sym e
unless_empty-next (b ∷ bytes) p next e = ground arith

pub unless_empty-cons :
    {A : Type 0} (h : ParamHeader) (ks : ParamHeaders) (p : A) (next : Outcome CodecError A)
    → IsWritten h
    → unless_empty (encode_params (cons h ks)) p next ≡ next
unless_empty-cons h ks p next w =
    rw (encode_params-cons h ks w)
      (unless_empty-framed (kind h) (size h) (body h) (encode_params ks) p next)
  where
    unless_empty-framed :
        {A : Type 0} (t sz : ℕ) (content rest : List ℕ) (p : A) (next : Outcome CodecError A)
        → unless_empty (framed t sz content rest) p next ≡ next
    unless_empty-framed t sz content rest p next = ground arith

-- A reader that ends with a parameter that may be missing.
pub optional_last :
    {A B : Type 0} (c : Coding B) (put : Option B → A) (o : Option B)
    → IfSome (IsRead c) o
    → unless_empty (encode_params (maybe (c.head) o +++ nil)) (put none) (
        optional (c.of_type) (c.read) (encode_params (maybe (c.head) o +++ nil)) >>= λ (x, rest).
        finished rest (put x))
      ≡ ok (put o)
unfolding encode_params
optional_last c put none i = refl
optional_last c put (some x) i =
    unless_empty-cons (c.head x) nil (put none)
      (optional (c.of_type) (c.read) (encode_params (one (c.head x))) >>= λ (x, rest).
        finished rest (put x))
      (i.0)
    ∙ rw (optional-cons c x i nil) refl

pub length-encode_params-cons :
    (h : ParamHeader) (ks : ParamHeaders)
    → IsWritten h
    → length (encode_params (cons h ks)) ≡ 4 + length (body h) + length (encode_params ks)
length-encode_params-cons h ks w =
    omega (arith, ap length (encode_params-cons h ks w), length-append (body h) (encode_params ks))

-- A reader that succeeds had as many bytes as it asked for.
pub enough-of-ok :
    {A : Type 0} (pt needed got : ℕ) (exact : Bool) (next : Outcome CodecError A) (p : A)
    → (has_enough_bytes pt needed got exact >> next) ≡ ok p
    → needed ≤ got
unfolding has_enough_bytes
enough-of-ok pt needed got exact next p e = ground arith

-- What stands in front of `ks` is no parameter of type `t`.
abbrev pub IsNotFirst : ℕ → ParamHeaders → Type 0
IsNotFirst t nil = Unit
IsNotFirst t (cons h ks) = IsWritten h × (kind h ≢ t)

optional-foreign :
    {B : Type 0} (t u sz : ℕ) (content rest : List ℕ) (read : ℕ → Read B)
    → u < 2 ^ 16
    → u ≢ t
    → optional t read (framed u sz content rest) ≡ ok (none, framed u sz content rest)
unfolding optional
optional-foreign t u sz content rest read l n = ground arith

pub optional_absent :
    {B : Type 0} (c : Coding B) (h : ParamHeader) (ks : ParamHeaders)
    → IsWritten h
    → kind h ≢ c.of_type
    → optional (c.of_type) (c.read) (encode_params (cons h ks))
      ≡ ok (none, encode_params (cons h ks))
optional_absent c h ks w n =
    rw (encode_params-cons h ks w)
      (optional-foreign (c.of_type) (kind h) (size h) (body h) (encode_params ks) (c.read) (w.2) n)

-- A parameter that may be missing, in front of others.
pub optional_then :
    {A B : Type 0} (c : Coding B) (put : Option B → A) (o : Option B) (ks : ParamHeaders)
    (next : A → List ℕ → Outcome CodecError A) (p : A)
    → IfSome (IsRead c) o
    → IsNotFirst (c.of_type) ks
    → next (put none) [] ≡ ok (put none)
    → next (put o) (encode_params ks) ≡ ok p
    → unless_empty (encode_params (maybe (c.head) o +++ ks)) (put none) (
        optional (c.of_type) (c.read) (encode_params (maybe (c.head) o +++ ks)) >>= λ (x, rest).
        next (put x) rest)
      ≡ ok p
unfolding encode_params
optional_then c put none nil next p i f z e = sym z ∙ e
optional_then c put none (cons h ks) next p i (w, n) z e =
    unless_empty-cons h ks (put none)
      (optional (c.of_type) (c.read) (encode_params (cons h ks)) >>= λ (x, rest). next (put x) rest)
      w
    ∙ rw (optional_absent c h ks w n) e
optional_then c put (some x) ks next p i f z e =
    unless_empty-cons (c.head x) ks (put none)
      (optional (c.of_type) (c.read) (encode_params (cons (c.head x) ks)) >>= λ (x, rest).
        next (put x) rest)
      (i.0)
    ∙ rw (optional-cons c x i ks) e
