-- ===== src/Llrp/Replies/Refusals.antt =====
-- What a reader of replies does with a status whose length field is wrong.
use device_rfid_llrp_go.Prelude.{
  ℕ, suc, ◌+◌, ◌≤◌, ◌<◌, ◌≡◌, List, ◌++◌, arith, IsU16, length, err, panic,
}
use device_rfid_llrp_go.Llrp.Bytes.{be16}
use device_rfid_llrp_go.Llrp.Params.{CodecError, next_tlv}
use device_rfid_llrp_go.Llrp.Status.{Found, param_group}
use device_rfid_llrp_go.Llrp.Replies.{only_status, status_message}

-- All branches of the length field of the status in a reply of type 287: below 4 the slice
-- `data[4:subLen]` panics, and above the payload it is an error.
pub status_message_bad_length :
    (t n : ℕ) (rest : List ℕ)
    → IsU16 n
    → 4 ≤ length rest
    → (n < 4 → status_message t (be16 287 ++ (be16 n ++ rest)) ≡ panic)
      × (4 + length rest < n
          → status_message t (be16 287 ++ (be16 n ++ rest))
            ≡ err (CodecError.declares_too_much n (4 + length rest)))
unfolding status_message only_status
status_message_bad_length t n rest h r = ground arith

-- A field error or a parameter error that declares a length below 4 makes the loop over sub-parameters
-- panic, whatever stands behind it and whatever was read before.
pub param_group_bad_length :
    (fuel n : ℕ) (found : Found) (rest : List ℕ)
    → n < 4
    → (param_group (suc fuel) found (be16 288 ++ (be16 n ++ rest)) ≡ panic)
      × (param_group (suc fuel) found (be16 289 ++ (be16 n ++ rest)) ≡ panic)
unfolding param_group next_tlv
param_group_bad_length fuel n found rest h = ground arith
