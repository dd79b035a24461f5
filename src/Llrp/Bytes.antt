-- ===== src/Llrp/Bytes.antt =====
-- Bytes as the codec reads and writes them: Go's encoding/binary, big-endian, and slices. A byte slice is
-- a list of numbers; a read or a slice beyond the length panics.
use device_rfid_llrp_go.Prelude.{
  ℕ, ◌+◌, ◌*◌, ◌/◌, ◌%◌, ◌^◌, ◌≤◌, ◌≡◌, ◌&&◌, List, [], ◌∷◌, ◌++◌, arith, leb, if◌then◌else◌,
  length, take, drop, Outcome, ok, err, panic, IsU16, IsU32, IsU64, length-take, length-drop, ◌≢◌,
}

-- `PutUint16`, and the generated `byte(v>>8), byte(v)`.
abbrev pub be16 : ℕ → List ℕ
be16 n = (n / 2 ^ 8 % 256) ∷ (n % 256) ∷ []

-- `PutUint32`
abbrev pub be32 : ℕ → List ℕ
be32 n = (n / 2 ^ 24 % 256) ∷ (n / 2 ^ 16 % 256) ∷ (n / 2 ^ 8 % 256) ∷ (n % 256) ∷ []

-- `PutUint64`
abbrev pub be64 : ℕ → List ℕ
be64 n =
    (n / 2 ^ 56 % 256)
    ∷ (n / 2 ^ 48 % 256)
    ∷ (n / 2 ^ 40 % 256)
    ∷ (n / 2 ^ 32 % 256)
    ∷ (n / 2 ^ 24 % 256)
    ∷ (n / 2 ^ 16 % 256)
    ∷ (n / 2 ^ 8 % 256)
    ∷ (n % 256)
    ∷ []

-- `data[0]`
abbrev pub uint8 : {E : Type 0} → List ℕ → Outcome E ℕ
uint8 (a ∷ _) = ok a
uint8 _ = panic

-- `binary.BigEndian.Uint16(data)`
abbrev pub uint16 : {E : Type 0} → List ℕ → Outcome E ℕ
uint16 (a ∷ b ∷ _) = ok (a * 2 ^ 8 + b)
uint16 _ = panic

-- `binary.BigEndian.Uint32(data)`
abbrev pub uint32 : {E : Type 0} → List ℕ → Outcome E ℕ
uint32 (a ∷ b ∷ c ∷ d ∷ _) = ok (a * 2 ^ 24 + b * 2 ^ 16 + c * 2 ^ 8 + d)
uint32 _ = panic

-- `binary.BigEndian.Uint64(data)`
abbrev pub uint64 : {E : Type 0} → List ℕ → Outcome E ℕ
uint64 (a ∷ b ∷ c ∷ d ∷ e ∷ f ∷ g ∷ h ∷ _) =
    ok (a * 2 ^ 56 + b * 2 ^ 48 + c * 2 ^ 40 + d * 2 ^ 32 + e * 2 ^ 24 + f * 2 ^ 16 + g * 2 ^ 8 + h)
uint64 _ = panic

-- `data[n:]`
abbrev pub slice_from : {E : Type 0} → ℕ → List ℕ → Outcome E (List ℕ)
slice_from n xs = if leb n (length xs) then ok (drop n xs) else panic

-- `data[lo:hi]`, for `hi` up to the length
abbrev pub slice : {E : Type 0} → ℕ → ℕ → List ℕ → Outcome E (List ℕ)
slice lo hi xs = if leb lo hi && leb hi (length xs) then ok (drop lo (take hi xs)) else panic

module _ {E : Type 0} where
  pub uint16-be16 : (n : ℕ) (rest : List ℕ) → IsU16 n → uint16 {E = E} (be16 n ++ rest) ≡ ok n
  uint16-be16 n rest h = ground arith

  pub uint32-be32 : (n : ℕ) (rest : List ℕ) → IsU32 n → uint32 {E = E} (be32 n ++ rest) ≡ ok n
  uint32-be32 n rest h = ground arith

  pub uint64-be64 : (n : ℕ) (rest : List ℕ) → IsU64 n → uint64 {E = E} (be64 n ++ rest) ≡ ok n
  uint64-be64 n rest h = ground arith

module _ {E : Type 0} where
  pub slice-eq-ok :
      (lo hi : ℕ) (bytes part : List ℕ)
      → slice {E = E} lo hi bytes ≡ ok part
      → (lo ≤ hi) × (hi ≤ length bytes) × (length part + lo ≡ hi)
  slice-eq-ok lo hi bytes part e =
      ground (arith, length-take hi bytes, length-drop lo (take hi bytes))

  pub slice_from-eq-ok :
      (n : ℕ) (bytes part : List ℕ)
      → slice_from {E = E} n bytes ≡ ok part
      → length part + n ≡ length bytes
  slice_from-eq-ok n bytes part e = ground (arith, length-drop n bytes)

  -- Reads and slices panic where Go does, and give no error value.
  pub slice-ne-err : (lo hi : ℕ) (bytes : List ℕ) (x : E) → slice lo hi bytes ≢ err x
  slice-ne-err lo hi bytes x = ground arith

  pub slice_from-ne-err : (n : ℕ) (bytes : List ℕ) (x : E) → slice_from n bytes ≢ err x
  slice_from-ne-err n bytes x = ground arith

  pub uint16-ne-err : (bytes : List ℕ) (x : E) → uint16 bytes ≢ err x
  uint16-ne-err [] x = ground arith
  uint16-ne-err (a ∷ []) x = ground arith
  uint16-ne-err (a ∷ b ∷ rest) x = ground arith
