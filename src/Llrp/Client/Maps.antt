-- ===== src/Llrp/Client/Maps.antt =====
-- The map `awaiting`: what is found in it, and how often a channel stands in it.
use device_rfid_llrp_go.Prelude.{
  ℕ, ◌+◌, ◌≤◌, ◌≡◌, ◌≢◌, refl, Bool, true, false, none, some, List, [], ◌∷◌, arith, ◌==◌,
}
use device_rfid_llrp_go.Llrp.Client.{lookup, delete}

abbrev pub one_if : Bool → ℕ
one_if true = 1
one_if false = 0

-- How often `x` stands in a list.
unfoldable pub count : ℕ → List ℕ → ℕ
count x [] = 0
count x (y ∷ ys) = one_if (y == x) + count x ys

-- How often channel `x` is awaited.
unfoldable pub awaits : ℕ → List (ℕ × ℕ) → ℕ
awaits x [] = 0
awaits x ((k, v) ∷ m) = one_if (v == x) + awaits x m

pub lookup-delete : (k : ℕ) (m : List (ℕ × ℕ)) → lookup k (delete k m) ≡ none
unfolding lookup delete
lookup-delete k [] = refl
lookup-delete k ((j, v) ∷ m) = ground (arith, lookup-delete k m)

pub lookup-delete_other : (j k : ℕ) (m : List (ℕ × ℕ)) → j ≢ k → lookup j (delete k m) ≡ lookup j m
unfolding lookup delete
lookup-delete_other j k [] h = refl
lookup-delete_other j k ((i, v) ∷ m) h = ground (arith, lookup-delete_other j k m)

pub awaits-delete : (x k : ℕ) (m : List (ℕ × ℕ)) → awaits x (delete k m) ≤ awaits x m
unfolding awaits delete
awaits-delete x k [] = omega arith
awaits-delete x k ((j, v) ∷ m) = ground (arith, awaits-delete x k m)

pub awaits-lookup :
    (x k v : ℕ) (m : List (ℕ × ℕ))
    → lookup k m ≡ some v
    → one_if (v == x) + awaits x (delete k m) ≤ awaits x m
unfolding awaits delete lookup
awaits-lookup x k v [] e = ground arith
awaits-lookup x k v ((j, w) ∷ m) e = ground (arith, awaits-lookup x k v m, awaits-delete x k m)
