-- ===== src/Llrp/MessageTypes/Mirror.antt =====
-- Requests and responses: the table `mirrorType` pairs them off.
use device_rfid_llrp_go.Prelude.{
  ℕ, ◌≡◌, refl, Bool, true, false, ◌&&◌, ◌||◌, none, some, List, [], ◌∷◌, arith, ◌==◌, not,
}
use device_rfid_llrp_go.Llrp.MessageTypes.{find, mirror_type, converse, is_valid, custom_message}

-- A test of every entry of a table.
all_entries : (ℕ → ℕ → Bool) → List (ℕ × ℕ) → Bool
all_entries p [] = true
all_entries p ((k, v) ∷ m) = p k v && all_entries p m

-- What holds of every entry holds of what `find` returns.
find_all :
    (p : ℕ → ℕ → Bool) (m : List (ℕ × ℕ)) (k v : ℕ)
    → all_entries p m ≡ true
    → find k m ≡ some v
    → p k v ≡ true
unfolding all_entries find
find_all p [] k v h e = cc
find_all p ((j, w) ∷ m) k v h e = ground (arith, find_all p m k v)

-- An entry goes back by the table, joins types that `IsValid` accepts, and is no fixed point but for the
-- custom message.
is_paired : ℕ → ℕ → Bool
unfolding converse
is_paired k v = elim (converse v) [ none ↦ false | some j ↦ j == k ]

joins_valid : ℕ → ℕ → Bool
joins_valid k v = is_valid k && is_valid v

moves_on : ℕ → ℕ → Bool
moves_on k v = not (k == v) || k == custom_message

paired_table : all_entries is_paired mirror_type ≡ true
unfolding all_entries is_paired mirror_type find
paired_table = refl

valid_table : all_entries joins_valid mirror_type ≡ true
unfolding all_entries joins_valid mirror_type is_valid
valid_table = refl

moves_table : all_entries moves_on mirror_type ≡ true
unfolding all_entries moves_on mirror_type
moves_table = refl

-- `Converse` goes back: if the mirror of a type is another, the mirror of that is the first.
pub converse_involutive : (t u : ℕ) → converse t ≡ some u → converse u ≡ some t
unfolding is_paired converse
converse_involutive t u e = ground (arith, find_all is_paired mirror_type t u paired_table e)

pub converse-is_valid : (t u : ℕ) → converse t ≡ some u → (is_valid t ≡ true) × (is_valid u ≡ true)
unfolding joins_valid converse
converse-is_valid t u e = ground (arith, find_all joins_valid mirror_type t u valid_table e)

pub converse_fixed : (t : ℕ) → converse t ≡ some t → t ≡ custom_message
unfolding moves_on converse
converse_fixed t e = ground (arith, find_all moves_on mirror_type t t moves_table e)
