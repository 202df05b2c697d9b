-- ===== src/FlatSet.antt =====
-- The hash set that client/src/mapper.cpp takes from folly (F14FastSet), behind its documented
-- laws, and a list that meets them.
use max_embed.Prelude.{
  ℕ, ◌≡◌, refl, Bool, true, false, List, [], ◌∷◌, arith, ◌==◌, if◌then◌else◌, elem,
}

pub record FlatSet : Type 1 where
  pub Carrier : Type 0
  pub clear : Carrier
  pub insert : ℕ → Carrier → Carrier
  pub erase : ℕ → Carrier → Carrier
  pub contains : ℕ → Carrier → Bool
  pub contains-clear : (k : ℕ) → contains k clear ≡ false
  pub contains-insert :
      (k j : ℕ) (s : Carrier) → contains k (insert j s) ≡ (if j == k then true else contains k s)
  pub contains-erase :
      (k j : ℕ) (s : Carrier) → contains k (erase j s) ≡ (if j == k then false else contains k s)

pub remove_all : ℕ → List ℕ → List ℕ
remove_all j [] = []
remove_all j (x ∷ xs) = if x == j then remove_all j xs else x ∷ remove_all j xs

pub elem-remove_all :
    (k j : ℕ) (xs : List ℕ) → elem k (remove_all j xs) ≡ (if j == k then false else elem k xs)
unfolding remove_all
elem-remove_all k j [] = ground arith
elem-remove_all k j (x ∷ xs) = ground (arith, elem-remove_all k j xs)

-- A list as a set.
unfoldable pub list_set : FlatSet
unfolding remove_all
list_set = record {
  Carrier = List ℕ;
  clear = [];
  insert = ◌∷◌;
  erase = remove_all;
  contains = elem;
  contains-clear = λ k. refl;
  contains-insert = λ k j s. refl;
  contains-erase = elem-remove_all;
}
