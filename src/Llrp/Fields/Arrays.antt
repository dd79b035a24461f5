-- ===== src/Llrp/Fields/Arrays.antt =====
-- Arrays that were written are read back.
use device_rfid_llrp_go.Prelude.{
  ℕ, ◌+◌, ◌*◌, ◌^◌, ◌<◌, ◌≡◌, refl, ap, List, [], ◌∷◌, ◌++◌, arith, ok, length, length-append, take,
  drop, take-append, drop-append, >>=-of-ok, All, IsU16, IsU32, bit_or, ◌∙◌, Bool,
}
use device_rfid_llrp_go.Llrp.Bytes.{be16, uint16, uint32, slice_from}
use device_rfid_llrp_go.Llrp.Params.{CodecError}
use device_rfid_llrp_go.Llrp.Fields.{
  Read, byte_array, elements, array_at, uint16_array, uint32_array, uint16_at, each_be16, each_be32,
  bit_bytes, bit_array, u8, b2b, top_bit, has_bit,
}
use device_rfid_llrp_go.Prelude.Bits.{bit_or_shifted}
use mathlib.Core.List.{append_assoc}

pub length-each_be16 : (xs : List ℕ) → length (each_be16 xs) ≡ length xs * 2
length-each_be16 [] = refl
length-each_be16 (x ∷ xs) = omega (arith, length-each_be16 xs)

pub length-each_be32 : (xs : List ℕ) → length (each_be32 xs) ≡ length xs * 4
length-each_be32 [] = refl
length-each_be32 (x ∷ xs) = omega (arith, length-each_be32 xs)

take_front : (n : ℕ) (xs rest : List ℕ) → n ≡ length xs → take n (xs ++ rest) ≡ xs
take_front n xs rest e = rw e (take-append xs rest)

drop_front : (n : ℕ) (xs rest : List ℕ) → n ≡ length xs → drop n (xs ++ rest) ≡ rest
drop_front n xs rest e = rw e (drop-append xs rest)

-- What stands at the end of `pre`.
pub slice_from-pre :
    (pre rest : List ℕ) → slice_from {E = CodecError} (length pre) (pre ++ rest) ≡ ok rest
slice_from-pre pre rest = ground (arith, drop-append pre rest, length-append pre rest)

slice_from-pre2 :
    (a b : ℕ) (pre rest : List ℕ)
    → slice_from {E = CodecError} (length pre + 2) (pre ++ (a ∷ b ∷ rest)) ≡ ok rest
slice_from-pre2 a b [] rest = ground arith
slice_from-pre2 a b (x ∷ pre) rest = ground (arith, slice_from-pre2 a b pre rest)

module _ (pre xs rest : List ℕ) (n : ℕ) (bytes : List ℕ) where
  -- The steps of the two readers.
  byte_array_steps :
      uint16_at (length pre) bytes ≡ ok n
      → slice_from {E = CodecError} (length pre + 2) bytes ≡ ok (xs ++ rest)
      → n ≡ length xs
      → byte_array (length pre) bytes ≡ ok (xs, rest)
  unfolding byte_array
  byte_array_steps a b e =
      ground (arith, take_front n xs rest e, drop_front n xs rest e, length-append xs rest)

  array_steps :
      (width : ℕ) (read : Read ℕ) (written : List ℕ)
      → uint16_at (length pre) bytes ≡ ok n
      → slice_from {E = CodecError} (length pre + 2) bytes ≡ ok (written ++ rest)
      → n * width ≡ length written
      → elements width read n (written ++ rest) ≡ ok xs
      → array_at width read (length pre) bytes ≡ ok (xs, rest)
  unfolding array_at
  array_steps width read written a b e r =
      ground (arith, drop_front (n * width) written rest e, length-append written rest)

uint16_at-pre :
    (n : ℕ) (pre rest : List ℕ)
    → n < 2 ^ 16
    → uint16_at (length pre) (pre ++ (be16 n ++ rest)) ≡ ok n
uint16_at-pre n pre rest h =
    >>=-of-ok (slice_from (length pre) (pre ++ (be16 n ++ rest))) uint16
      (slice_from-pre pre (be16 n ++ rest)) (ground arith)

elements-each_be16 :
    (xs rest : List ℕ) → All IsU16 xs → elements 2 uint16 (length xs) (each_be16 xs ++ rest) ≡ ok xs
unfolding elements
elements-each_be16 [] rest h = refl
elements-each_be16 (x ∷ xs) rest (h, hs) = ground (arith, elements-each_be16 xs rest hs)

elements-each_be32 :
    (xs rest : List ℕ) → All IsU32 xs → elements 4 uint32 (length xs) (each_be32 xs ++ rest) ≡ ok xs
unfolding elements
elements-each_be32 [] rest h = refl
elements-each_be32 (x ∷ xs) rest (h, hs) = ground (arith, elements-each_be32 xs rest hs)

module _ (pre xs rest : List ℕ) where
  pub byte_array-written :
      length xs < 2 ^ 16
      → byte_array (length pre) (pre ++ (be16 (length xs) ++ (xs ++ rest))) ≡ ok (xs, rest)
  byte_array-written h =
      byte_array_steps pre xs rest (length xs) _ (uint16_at-pre (length xs) pre (xs ++ rest) h)
        (slice_from-pre2 _ _ pre (xs ++ rest)) refl

  pub uint16_array-written :
      All IsU16 xs
      → length xs < 2 ^ 16
      → uint16_array (length pre) (pre ++ (be16 (length xs) ++ (each_be16 xs ++ rest)))
        ≡ ok (xs, rest)
  uint16_array-written a h =
      array_steps pre xs rest (length xs) _ 2 uint16 (each_be16 xs)
        (uint16_at-pre (length xs) pre (each_be16 xs ++ rest) h)
        (slice_from-pre2 _ _ pre (each_be16 xs ++ rest)) (omega (arith, length-each_be16 xs))
        (elements-each_be16 xs rest a)

  pub uint32_array-written :
      All IsU32 xs
      → length xs < 2 ^ 16
      → uint32_array (length pre) (pre ++ (be16 (length xs) ++ (each_be32 xs ++ rest)))
        ≡ ok (xs, rest)
  uint32_array-written a h =
      array_steps pre xs rest (length xs) _ 4 uint32 (each_be32 xs)
        (uint16_at-pre (length xs) pre (each_be32 xs ++ rest) h)
        (slice_from-pre2 _ _ pre (each_be32 xs ++ rest)) (omega (arith, length-each_be32 xs))
        (elements-each_be32 xs rest a)

  pub bit_array-written :
      (n : ℕ)
      → length xs ≡ bit_bytes n
      → bit_array n (length pre) (pre ++ (xs ++ rest)) ≡ ok (xs, rest)
  unfolding bit_array
  bit_array-written n e = ground (
    arith,
    slice_from-pre pre (xs ++ rest),
    take_front (bit_bytes n) xs rest (omega (arith, e)),
    drop_front (bit_bytes n) xs rest (omega (arith, e)),
    length-append xs rest,
  )

-- A bit array in front of another.
pub bit_array-written2 :
    (pre xs mid ys : List ℕ) (n : ℕ)
    → length xs ≡ bit_bytes n
    → bit_array n (length pre) (pre ++ (xs ++ mid ++ ys ++ [])) ≡ ok (xs, mid ++ ys ++ [])
bit_array-written2 pre xs mid ys n e =
    let apart : xs ++ mid ++ ys ++ [] ≡ xs ++ (mid ++ ys ++ []) =
      ap (λ (zs : List ℕ). zs ++ []) (append_assoc xs mid ys) ∙ append_assoc xs (mid ++ ys) [] in
    rw apart (bit_array-written pre xs (mid ++ ys ++ []) n e)

-- Two numbers of one bit each in the top bits of a byte.
pub two_bits :
    (a b : ℕ) → a < 2 → b < 2 → bit_or (u8 (a * 2 ^ 7)) (u8 (b * 2 ^ 6)) ≡ a * 2 ^ 7 + b * 2 ^ 6
two_bits a b h k =
    let first : u8 (a * 2 ^ 7) ≡ a * 2 ^ 7 = omega arith in
    let second : u8 (b * 2 ^ 6) ≡ b * 2 ^ 6 = omega arith in
    rw (first, second) (bit_or_shifted 7 a (b * 2 ^ 6) (omega arith))

-- The eight flags of a byte.
pub eight_flags :
    (a b c d e f g h : Bool) (n : ℕ)
    → n ≡ b2b a 7 + b2b b 6 + b2b c 5 + b2b d 4 + b2b e 3 + b2b f 2 + b2b g 1 + b2b h 0
    → (top_bit n ≡ a)
      × (has_bit 6 n ≡ b)
      × (has_bit 5 n ≡ c)
      × (has_bit 4 n ≡ d)
      × (has_bit 3 n ≡ e)
      × (has_bit 2 n ≡ f)
      × (has_bit 1 n ≡ g)
      × (has_bit 0 n ≡ h)
eight_flags a b c d e f g h n s = ground arith
