-- ===== src/Words/Laws.antt =====
-- Reading back what was written.
use max_embed.Prelude.{
  ℕ, zero, suc, ◌+◌, ◌*◌, ◌/◌, ◌^◌, ◌<◌, ◌≡◌, refl, ap, ◌∙◌, List, [], ◌∷◌, ◌++◌, arith, get_or,
  All, length, take, drop,
}
use max_embed.Words.{u32, read_u64, words_of, longs_of}

-- A number below 2 ^ 64 is read back.
pub u64_halves : (n : ℕ) → n < 2 ^ 64 → u32 n + 2 ^ 32 * u32 (n / 2 ^ 32) ≡ n
u64_halves n h = omega arith

pub take-append : {A : Type 0} (xs ys : List A) (n : ℕ) → length xs ≡ n → take n (xs ++ ys) ≡ xs
take-append [] ys zero h = refl
take-append [] ys (suc n) h = absurd (omega arith)
take-append (x ∷ xs) ys zero h = absurd (omega arith)
take-append (x ∷ xs) ys (suc n) h = ap (λ zs. x ∷ zs) (take-append xs ys n (omega arith))

pub drop-append : {A : Type 0} (xs ys : List A) (n : ℕ) → length xs ≡ n → drop n (xs ++ ys) ≡ ys
drop-append [] ys zero h = refl
drop-append [] ys (suc n) h = absurd (omega arith)
drop-append (x ∷ xs) ys zero h = absurd (omega arith)
drop-append (x ∷ xs) ys (suc n) h = drop-append xs ys n (omega arith)

pub take_all : {A : Type 0} (xs : List A) (n : ℕ) → length xs ≡ n → take n xs ≡ xs
take_all [] zero h = refl
take_all [] (suc n) h = refl
take_all (x ∷ xs) zero h = absurd (omega arith)
take_all (x ∷ xs) (suc n) h = ap (λ zs. x ∷ zs) (take_all xs n (omega arith))

pub drop-drop-append :
    {A : Type 0} (xs ys zs : List A) (m n : ℕ)
    → length xs ≡ m
    → length ys ≡ n
    → drop (m + n) (xs ++ (ys ++ zs)) ≡ zs
drop-drop-append [] ys zs zero n h k =
    let e : 0 + n ≡ n = omega arith in ap (λ j. drop j (ys ++ zs)) e ∙ drop-append ys zs n k
drop-drop-append [] ys zs (suc m) n h k = absurd (omega arith)
drop-drop-append (x ∷ xs) ys zs zero n h k = absurd (omega arith)
drop-drop-append (x ∷ xs) ys zs (suc m) n h k =
    let e : suc m + n ≡ suc (m + n) = omega arith in
    ap (λ j. drop j (x ∷ (xs ++ (ys ++ zs)))) e ∙ drop-drop-append xs ys zs m n (omega arith) k

pub length-words_of : (xs : List ℕ) → length (words_of xs) ≡ length xs
unfolding words_of
length-words_of [] = refl
length-words_of (x ∷ xs) = ap suc (length-words_of xs)

-- Writing changes no number of 32 bits.
pub words_of_small :
    (xs : List ℕ) → ((j : ℕ) → j < length xs → get_or xs j 0 < 2 ^ 32) → words_of xs ≡ xs
unfolding words_of
words_of_small [] h = refl
words_of_small (x ∷ xs) h =
    ap (λ y. y ∷ words_of xs) (same x (h 0 (omega arith)))
    ∙ ap (λ ys. x ∷ ys) (words_of_small xs (λ j l. h (suc j) (omega arith)))
  where
    same : (y : ℕ) → y < 2 ^ 32 → u32 y ≡ y
    same y h = omega arith

pub get_or-All : (xs : List ℕ) (j : ℕ) → All (λ b. b < 2 ^ 32) xs → get_or xs j 0 < 2 ^ 32
get_or-All [] j h = omega arith
get_or-All (x ∷ xs) zero h = h.0
get_or-All (x ∷ xs) (suc j) h = get_or-All xs j h.1

pub length-longs_of : (xs : List ℕ) → length (longs_of xs) ≡ length xs + length xs
unfolding longs_of
length-longs_of [] = refl
length-longs_of (x ∷ xs) = omega (arith, length-longs_of xs)

-- The i-th of an array of uint64_t is read back.
pub read_u64-longs_of :
    (xs ys : List ℕ) (i : ℕ)
    → i < length xs
    → get_or xs i 0 < 2 ^ 64
    → read_u64 (longs_of xs ++ ys) (i + i) ≡ get_or xs i 0
unfolding longs_of
read_u64-longs_of [] ys i h small = absurd (omega arith)
read_u64-longs_of (x ∷ xs) ys zero h small = u64_halves x small
read_u64-longs_of (x ∷ xs) ys (suc i) h small =
    let e : suc i + suc i ≡ suc (suc (i + i)) = omega arith in
    let high : suc (suc (i + i)) + 1 ≡ suc (suc (i + i + 1)) = omega arith in
    let words = longs_of (x ∷ xs) ++ ys in
    let moved : read_u64 words (suc (suc (i + i))) ≡ read_u64 (longs_of xs ++ ys) (i + i) =
      ap (λ j. get_or words (suc (suc (i + i))) 0 + 2 ^ 32 * get_or words j 0) high in
    ap (read_u64 words) e ∙ moved ∙ read_u64-longs_of xs ys i (omega arith) small
