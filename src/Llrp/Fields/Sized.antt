-- ===== src/Llrp/Fields/Sized.antt =====
-- The sizes that the generated writers sum up are right, as long as the sum fits a uint16.
use device_rfid_llrp_go.Prelude.{
  ℕ, ◌+◌, ◌^◌, ◌<◌, ◌≡◌, false, Option, none, some, List, [], ◌∷◌, ◌++◌, arith, length,
  length-append, All,
}
use device_rfid_llrp_go.Llrp.Params.{ParamHeaders, header, nil, cons, size, is_tv, encode_params}
use device_rfid_llrp_go.Llrp.Params.Sizes.{AllSized, sizes, length-encode_params}
use device_rfid_llrp_go.Llrp.Fields.{add_sizes, u16, ◌+++◌, every, maybe}
use device_rfid_llrp_go.Llrp.Fields.Coded.{IsWritten, IfSome, Fits, Coding, IsRead}

add_sizes-sum :
    (base : ℕ) (ks : ParamHeaders) → base + sizes ks < 2 ^ 16 → add_sizes base ks ≡ base + sizes ks
add_sizes-sum base nil h = omega arith
add_sizes-sum base (cons k ks) h =
    rw (unfold-u16 (base + size k) (omega arith))
      (omega (arith, add_sizes-sum (base + size k) ks (omega arith)))
  where
    unfold-u16 : (n : ℕ) → n < 2 ^ 16 → u16 n ≡ n
    unfold-u16 n l = omega arith

-- The header of a parameter with sub-parameters.
pub IsWritten-subs :
    (t base : ℕ) (fields : List ℕ) (subs : ParamHeaders)
    → is_tv t ≡ false
    → t < 2 ^ 16
    → base ≡ 4 + length fields
    → AllSized subs
    → Fits (header t base fields subs)
    → IsWritten (header t (add_sizes base subs) fields subs)
IsWritten-subs t base fields subs tlv small first below fits =
    let whole : length (fields ++ encode_params subs) ≡ length fields + sizes subs =
      omega (arith, length-append fields (encode_params subs), length-encode_params subs below) in
    let sum : add_sizes base subs ≡ base + sizes subs = add_sizes-sum base subs (omega arith) in
    ((tlv, omega (arith, sum), below), omega (arith, sum), small)

-- The header of one without, of variable length.
pub IsWritten-leaf :
    (t raw : ℕ) (fields : List ℕ)
    → is_tv t ≡ false
    → t < 2 ^ 16
    → raw ≡ 4 + length fields
    → Fits (header t raw fields nil)
    → IsWritten (header t (u16 raw) fields nil)
unfolding encode_params
IsWritten-leaf t raw fields tlv small first fits =
    let whole : length (fields ++ []) ≡ length fields + 0 = length-append fields [] in
    ((tlv, omega (arith, whole), tt), omega (arith, whole), small)

-- The same where the first size is itself a sum that is cut to a uint16.
pub IsWritten-sum :
    (t raw : ℕ) (fields : List ℕ) (subs : ParamHeaders)
    → is_tv t ≡ false
    → t < 2 ^ 16
    → raw ≡ 4 + length fields
    → AllSized subs
    → Fits (header t raw fields subs)
    → IsWritten (header t (add_sizes (u16 raw) subs) fields subs)
IsWritten-sum t raw fields subs tlv small first below fits =
    let same : u16 raw ≡ raw = omega (arith, length-append fields (encode_params subs)) in
    rw same (IsWritten-subs t raw fields subs tlv small first below fits)

module _ {B : Type 0} (c : Coding B) where
  pub AllSized-every :
      (xs : List B) (ks : ParamHeaders)
      → All (IsRead c) xs
      → AllSized ks
      → AllSized (every (c.head) xs +++ ks)
  AllSized-every [] ks i s = s
  AllSized-every (x ∷ xs) ks (i, is) s = (i.0.0, AllSized-every xs ks is s)

  pub AllSized-maybe :
      (o : Option B) (ks : ParamHeaders)
      → IfSome (IsRead c) o
      → AllSized ks
      → AllSized (maybe (c.head) o +++ ks)
  AllSized-maybe none ks i s = s
  AllSized-maybe (some x) ks i s = (i.0.0, s)
