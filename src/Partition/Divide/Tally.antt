-- ===== src/Partition/Divide/Tally.antt =====
-- How many nodes of a list lie in a part.
use max_embed.Prelude.{
  ℕ, ◌+◌, ◌≤◌, ◌<◌, ◌≡◌, ◌≢◌, ap, refl, true, List, [], ◌∷◌, ◌++◌, arith, ◌==◌, to_ℕ, length, count,
  elem, remove_one, count-remove_one,
}

abbrev pub tally : (ℕ → ℕ) → ℕ → List ℕ → ℕ
tally part id [] = 0
tally part id (k ∷ ks) = to_ℕ (part k == id) + tally part id ks

pub tally-append :
    (part : ℕ → ℕ) (id : ℕ) (xs ys : List ℕ)
    → tally part id (xs ++ ys) ≡ tally part id xs + tally part id ys
tally-append part id [] ys = omega arith
tally-append part id (x ∷ xs) ys = omega (arith, tally-append part id xs ys)

tally-remove_one :
    (part : ℕ → ℕ) (id k : ℕ) (xs : List ℕ)
    → 0 < count k xs
    → tally part id xs ≡ to_ℕ (part k == id) + tally part id (remove_one k xs)
unfolding remove_one
tally-remove_one part id k [] h = absurd (omega arith)
tally-remove_one part id k (x ∷ xs) h =
    let same : x ≡ k → to_ℕ (part x == id) ≡ to_ℕ (part k == id) = ap (λ n. to_ℕ (part n == id)) in
    ground (arith, tally-remove_one part id k xs, same)

-- Only how often each node occurs matters.
pub tally_of_count :
    (part : ℕ → ℕ) (id : ℕ) (xs ys : List ℕ)
    → ((k : ℕ) → count k xs ≡ count k ys)
    → tally part id xs ≡ tally part id ys
tally_of_count part id [] [] h = refl
tally_of_count part id [] (y ∷ ys) h = absurd (ground (arith, h y))
tally_of_count part id (x ∷ xs) ys h =
    let here : 0 < count x ys = ground (arith, h x) in
    let rest =
      tally_of_count part id xs (remove_one x ys)
        (λ k. omega (arith, h k, count-remove_one x k ys here)) in
    omega (arith, rest, tally-remove_one part id x ys here)

pub tally_agree :
    (p q : ℕ → ℕ) (id : ℕ) (xs : List ℕ)
    → ((k : ℕ) → elem k xs ≡ true → p k ≡ q k)
    → tally p id xs ≡ tally q id xs
tally_agree p q id [] h = refl
tally_agree p q id (x ∷ xs) h =
    let here : p x ≡ q x = h x (ground arith) in
    rw (here, tally_agree p q id xs (λ k e. h k (ground arith)))

pub tally_none :
    (p : ℕ → ℕ) (id : ℕ) (xs : List ℕ) → ((k : ℕ) → elem k xs ≡ true → p k ≢ id) → tally p id xs ≡ 0
tally_none p id [] h = refl
tally_none p id (x ∷ xs) h =
    let here : p x ≢ id = h x (ground arith) in
    ground (arith, tally_none p id xs (λ k e. h k (ground arith)))

pub tally-le-length : (p : ℕ → ℕ) (id : ℕ) (xs : List ℕ) → tally p id xs ≤ length xs
tally-le-length p id [] = omega arith
tally-le-length p id (x ∷ xs) = ground (arith, tally-le-length p id xs)
