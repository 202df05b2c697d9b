-- ===== src/Prelude/Count.antt =====
-- How often a number occurs in a list, and the test that it does.
use Prim.Native.Nat.{ℕ, zero, suc, ◌+◌, ◌≤◌, ◌<◌}
use mathlib.Core.Path.{◌≡◌, refl, subst}
use mathlib.Core.Logic.{inl, inr}
use mathlib.Core.Bool.{Bool, true, false}
use mathlib.Core.List.{List, [], ◌∷◌, ◌++◌}
use native.Mathlib.Omega.{arith}
use max_embed.Prelude.Tests.{◌==◌, ==→eq, Bool-cases, if◌then◌else◌, to_ℕ}
use max_embed.Prelude.Lists.{length, All, take, drop}

abbrev pub count : ℕ → List ℕ → ℕ
count k [] = 0
count k (x ∷ xs) = to_ℕ (x == k) + count k xs

abbrev pub elem : ℕ → List ℕ → Bool
elem k [] = false
elem k (x ∷ xs) = if x == k then true else elem k xs

pub count-append : (k : ℕ) (xs ys : List ℕ) → count k (xs ++ ys) ≡ count k xs + count k ys
count-append k [] ys = omega arith
count-append k (x ∷ xs) ys = omega (arith, count-append k xs ys)

pub count-pos_of_elem : (k : ℕ) (xs : List ℕ) → elem k xs ≡ true → 0 < count k xs
count-pos_of_elem k [] h = ground arith
count-pos_of_elem k (x ∷ xs) h = ground (arith, count-pos_of_elem k xs)

pub elem_of_count-pos : (k : ℕ) (xs : List ℕ) → 0 < count k xs → elem k xs ≡ true
elem_of_count-pos k [] h = absurd (omega arith)
elem_of_count-pos k (x ∷ xs) h = ground (arith, elem_of_count-pos k xs)

pub count-eq-zero : (k : ℕ) (xs : List ℕ) → elem k xs ≡ false → count k xs ≡ 0
count-eq-zero k [] h = refl
count-eq-zero k (x ∷ xs) h = ground (arith, count-eq-zero k xs)

pub elem_of_count-zero : (k : ℕ) (xs : List ℕ) → count k xs ≡ 0 → elem k xs ≡ false
elem_of_count-zero k [] h = refl
elem_of_count-zero k (x ∷ xs) h = ground (arith, elem_of_count-zero k xs)

pub count-le-length : (k : ℕ) (xs : List ℕ) → count k xs ≤ length xs
count-le-length k [] = omega arith
count-le-length k (x ∷ xs) = ground (arith, count-le-length k xs)

pub elem-append :
    (k : ℕ) (xs ys : List ℕ) → elem k (xs ++ ys) ≡ (if elem k xs then true else elem k ys)
elem-append k [] ys = refl
elem-append k (x ∷ xs) ys = ground (arith, elem-append k xs ys)

-- The list without the first occurrence.
unfoldable pub remove_one : ℕ → List ℕ → List ℕ
remove_one k [] = []
remove_one k (x ∷ xs) = if x == k then xs else x ∷ remove_one k xs

pub count-remove_one :
    (k j : ℕ) (xs : List ℕ)
    → 0 < count k xs
    → count j xs ≡ count j (remove_one k xs) + to_ℕ (k == j)
unfolding remove_one
count-remove_one k j [] h = absurd (omega arith)
count-remove_one k j (x ∷ xs) h = ground (arith, count-remove_one k j xs)

length-remove_one :
    (k : ℕ) (xs : List ℕ) → 0 < count k xs → length xs ≡ length (remove_one k xs) + 1
unfolding remove_one
length-remove_one k [] h = absurd (omega arith)
length-remove_one k (x ∷ xs) h = ground (arith, length-remove_one k xs)

-- A list that holds no number more often than another is no longer.
pub length_of_count-le :
    (xs ys : List ℕ) → ((k : ℕ) → count k xs ≤ count k ys) → length xs ≤ length ys
length_of_count-le [] ys h = omega arith
length_of_count-le (x ∷ xs) ys h =
    let here : 0 < count x ys = ground (arith, h x) in
    let rest =
      length_of_count-le xs (remove_one x ys)
        (λ k. omega (arith, h k, count-remove_one x k ys here)) in
    omega (arith, rest, length-remove_one x ys here)

pub length_of_count-eq :
    (xs ys : List ℕ) → ((k : ℕ) → count k xs ≡ count k ys) → length xs ≡ length ys
length_of_count-eq xs ys h = omega (
  arith,
  length_of_count-le xs ys (λ k. omega (arith, h k)),
  length_of_count-le ys xs (λ k. omega (arith, h k)),
)

pub count-take-drop :
    (k n : ℕ) (xs : List ℕ) → count k (take n xs) + count k (drop n xs) ≡ count k xs
count-take-drop k zero xs = omega arith
count-take-drop k (suc n) [] = omega arith
count-take-drop k (suc n) (x ∷ xs) = omega (arith, count-take-drop k n xs)

-- What holds of every number that occurs, and back.
pub all_of_count : {P : ℕ → Type 0} (xs : List ℕ) → ((k : ℕ) → 0 < count k xs → P k) → All P xs
all_of_count [] h = tt
all_of_count (x ∷ xs) h = (h x (ground arith), all_of_count xs (λ k q. h k (ground (arith, q))))

pub count-All : (P : ℕ → Type 0) (k : ℕ) (xs : List ℕ) → All P xs → 0 < count k xs → P k
count-All P k [] all h = absurd (omega arith)
count-All P k (x ∷ xs) all h = elim (Bool-cases (x == k)) [
  | inl e ↦ subst P (==→eq x k e) all.0
  | inr e ↦ count-All P k xs all.1 (ground arith)
]
