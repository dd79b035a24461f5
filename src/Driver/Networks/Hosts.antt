-- ===== src/Driver/Networks/Hosts.antt =====
-- Which addresses are probed.
use device_rfid_llrp_go.Prelude.{
  ℕ, zero, suc, ◌+◌, ◌-◌, ◌*◌, ◌/◌, ◌≤◌, ◌<◌, ◌≡◌, refl, ap, sym, ◌∙◌, true, false, ◌&&◌, List, [],
  ◌∷◌, arith, leb, ltb, ◌==◌, ==_iff, all_below, all_below-lt,
}
use device_rfid_llrp_go.Driver.Networks.{compute_net_sz, block, net_id, addresses, ip_generator}
use native.Mathlib.Nat.{mul-add-div_right, div-eq_of_lt}

-- `n`, `n + 1` and so on, `k` of them.
abbrev pub count_up : ℕ → ℕ → List ℕ
count_up n zero = []
count_up n (suc k) = n ∷ count_up (n + 1) k

net_id_within :
    (size q r : ℕ)
    → 0 < block size
    → r < block size
    → net_id size (q * block size + r) ≡ q * block size
unfolding net_id
net_id_within size q r p h =
    ap (λ (t : ℕ). t * block size) (mul-add-div_right p q r ∙ rw (div-eq_of_lt h) (omega arith))

-- An address of the network passes the test.
same_net :
    (size q r : ℕ)
    → 0 < block size
    → r < block size
    → (net_id size (q * block size) == net_id size (q * block size + r)) ≡ true
same_net size q r p h =
    let own : net_id size (q * block size) ≡ q * block size =
      ap (net_id size) (omega arith) ∙ net_id_within size q 0 p p in
    (==_iff _ _).1 (own ∙ sym (net_id_within size q r p h))

addresses_counted :
    (k n size q r : ℕ)
    → 0 < block size
    → r + k + 1 ≡ block size
    → k < n
    → addresses n size (q * block size) (q * block size + r) (q * block size + (block size - 1))
      ≡ count_up (q * block size + r) k
unfolding addresses
addresses_counted zero zero size q r p e h = absurd (omega arith)
addresses_counted zero (suc n) size q r p e h = ground arith
addresses_counted (suc k) zero size q r p e h = absurd (omega arith)
addresses_counted (suc k) (suc n) size q r p e h =
    let next : q * block size + r + 1 ≡ q * block size + (r + 1) = omega arith in
    let inside : ltb (q * block size + r) (q * block size + (block size - 1)) ≡ true =
      ground arith in
    rw (inside, same_net size q r p (omega arith), next)
      (ap (λ t. (q * block size + r) ∷ t)
        (addresses_counted k n size q (r + 1) p (omega arith) (omega arith)))

sizes_table : all_below 31 (λ n. (compute_net_sz n + 2 == block n) && ltb 1 (block n)) ≡ true
unfolding all_below compute_net_sz
sizes_table = refl

sizes : (n : ℕ) → n < 31 → (compute_net_sz n + 2 ≡ block n) × (1 < block n)
sizes n h = ground (arith, all_below-lt 31 _ n sizes_table h)

-- For a prefix of 2 to 30 bits, `ipGenerator` sends the addresses behind the network's own, in order, and as
-- many as `computeNetSz` says.
pub ip_generator-compute_net_sz :
    (size addr : ℕ)
    → 2 ≤ size
    → size ≤ 30
    → ip_generator size addr ≡ count_up (net_id size addr + 1) (compute_net_sz size)
unfolding ip_generator
ip_generator-compute_net_sz size addr lo hi =
    let (c, b) = sizes size (omega arith) in
    let small : leb size 1 ≡ false = ground arith in
    let large : leb 31 size ≡ false = ground arith in
    rw (small, large)
      (addresses_counted (compute_net_sz size) (block size) size (addr / block size) 1
        (omega (arith, b)) (omega (arith, c)) (omega (arith, c)))
