-- ===== src/Driver/Networks.antt =====
-- `computeNetSz` and `ipGenerator` of internal/driver/discover.go. The mask is that of a CIDR with a prefix
-- of `size` bits, so that `&` with it clears the bits of the host, and an address is a uint32. A run of
-- `ipGenerator` that is not cancelled is the list of what it sends.
pub mod Hosts
use device_rfid_llrp_go.Prelude.{
  ℕ, zero, suc, ◌+◌, ◌-◌, ◌*◌, ◌/◌, ◌^◌, List, [], ◌∷◌, leb, ltb, ◌==◌, if◌then◌else◌,
}

unfoldable pub compute_net_sz : ℕ → ℕ
compute_net_sz size = if leb 31 size then 1 else (2 ^ 32 - 1) / 2 ^ size - 1

-- The number of addresses under the mask, `^umask` and one more.
abbrev pub block : ℕ → ℕ
block size = 2 ^ (32 - size)

-- `addr & umask`
unfoldable pub net_id : ℕ → ℕ → ℕ
net_id size addr = addr / block size * block size

-- `for ip := ip; ip < bcast; ip++`, on fuel that is the number of rounds, in the network `id`
unfoldable pub addresses : ℕ → ℕ → ℕ → ℕ → ℕ → List ℕ
unfolding net_id
addresses zero size id ip bcast = []
addresses (suc n) size id ip bcast =
    let rest = addresses n size id (ip + 1) bcast in
    if ltb ip bcast then (if net_id size id == net_id size ip then ip ∷ rest else rest) else []

-- `ipGenerator`
unfoldable pub ip_generator : ℕ → ℕ → List ℕ
unfolding addresses net_id
ip_generator size addr =
    if leb size 1
    then []
    else if leb 31 size
    then addr ∷ []
    else (let id = net_id size addr in
        addresses (block size) size id (id + 1) (id + (block size - 1)))
