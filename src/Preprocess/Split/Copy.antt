-- ===== src/Preprocess/Split/Copy.antt =====
-- partition/preprocess/criteoTB_script/split_train_test.cpp: copying in chunks is copying.
use max_embed.Prelude.{
  ℕ, zero, suc, ◌-◌, ◌/◌, ◌^◌, ◌≤◌, ◌<◌, ◌≡◌, refl, sym, ap, subst, ◌∙◌, List, [], ◌∷◌, ◌++◌,
  Option, some, arith, ◌==◌, All, map, length, length-append, take, drop, Bool-cases, ==_of_ne,
  le→leb, inl, inr, ==→eq, length-take_le, length-drop,
}
use mathlib.Core.List.{append_assoc, map-append}
use max_embed.Words.{u32, longs_of, words_of}
use max_embed.Words.Laws.{take-append, drop-append}
use max_embed.PartitionStep.Input.{read_longs, read_ints, read_longs-longs_of}
use max_embed.Preprocess.Split.{chunk_size, copy_longs, copy_ints, reindex_first, copy_rest}

take-drop : (n : ℕ) (xs : List ℕ) → take n xs ++ drop n xs ≡ xs
take-drop zero xs = refl
take-drop (suc n) [] = refl
take-drop (suc n) (x ∷ xs) = ap (λ ys. x ∷ ys) (take-drop n xs)

pub longs_of-append : (xs ys : List ℕ) → longs_of (xs ++ ys) ≡ longs_of xs ++ longs_of ys
unfolding longs_of
longs_of-append [] ys = refl
longs_of-append (x ∷ xs) ys = ap (λ zs. u32 x ∷ u32 (x / 2 ^ 32) ∷ zs) (longs_of-append xs ys)

words_of-append : (xs ys : List ℕ) → words_of (xs ++ ys) ≡ words_of xs ++ words_of ys
unfolding words_of
words_of-append [] ys = refl
words_of-append (x ∷ xs) ys = ap (λ zs. u32 x ∷ zs) (words_of-append xs ys)

chunk_bounds :
    (m left : ℕ) → 0 < m → 0 < left → (0 < chunk_size m left) × (chunk_size m left ≤ left)
unfolding chunk_size
chunk_bounds m left p q = (ground arith, ground arith)

pub All-take : (P : ℕ → Type 0) (n : ℕ) (xs : List ℕ) → All P xs → All P (take n xs)
All-take P zero xs h = tt
All-take P (suc n) [] h = tt
All-take P (suc n) (x ∷ xs) h = (h.0, All-take P n xs h.1)

All-drop : (P : ℕ → Type 0) (n : ℕ) (xs : List ℕ) → All P xs → All P (drop n xs)
All-drop P zero xs h = h
All-drop P (suc n) [] h = tt
All-drop P (suc n) (x ∷ xs) h = All-drop P n xs h.1

no_longs :
    (f : ℕ → ℕ) (xs rest : List ℕ)
    → length xs ≡ 0
    → ◌≡◌ {A = Option (List ℕ × List ℕ)}
        (some ([], longs_of xs ++ rest))
        (some (longs_of (map f xs), rest))
unfolding longs_of
no_longs f [] rest z = refl
no_longs f (x ∷ xs) rest z = absurd (omega (arith, z))

no_ints :
    (f : ℕ → ℕ) (xs rest : List ℕ)
    → length xs ≡ 0
    → ◌≡◌ {A = Option (List ℕ × List ℕ)} (some ([], xs ++ rest)) (some (words_of (map f xs), rest))
unfolding words_of
no_ints f [] rest z = refl
no_ints f (x ∷ xs) rest z = absurd (omega (arith, z))

-- Copying in chunks is copying.
pub copy_longs-longs_of :
    (m : ℕ) (f : ℕ → ℕ) (fuel left : ℕ) (xs rest : List ℕ)
    → 0 < m
    → length xs ≡ left
    → left ≤ fuel
    → All (λ x. x < 2 ^ 64) xs
    → copy_longs m f fuel left (longs_of xs ++ rest) ≡ some (longs_of (map f xs), rest)
unfolding copy_longs longs_of
copy_longs-longs_of m f zero left [] rest p e l s = refl
copy_longs-longs_of m f zero left (x ∷ xs) rest p e l s = absurd (omega (arith, e, l))
copy_longs-longs_of m f (suc fuel) left xs rest p e l s = elim (Bool-cases (left == 0)) [
  | inl z ↦ rw z (no_longs f xs rest (omega (arith, e, ==→eq left 0 z)))
  | inr z ↦
      let n = chunk_size m left in
      let (low, high) = chunk_bounds m left p (ground (arith, z)) in
      let first = take n xs in
      let later = drop n xs in
      let size : length first ≡ n = length-take_le n xs (omega (arith, e, high)) in
      let read : read_longs n (longs_of xs ++ rest) ≡ some (first, longs_of later ++ rest) =
        subst (λ k. read_longs k (longs_of xs ++ rest) ≡ some (first, longs_of later ++ rest)) size
          (ap (λ ys. read_longs (length first) (ys ++ rest))
              (ap longs_of (sym (take-drop n xs)) ∙ longs_of-append first later)
            ∙ ap (read_longs (length first)) (append_assoc (longs_of first) (longs_of later) rest)
            ∙ read_longs-longs_of first (longs_of later ++ rest) (All-take _ n xs s)) in
      let more =
        copy_longs-longs_of m f fuel (left - n) later rest p (omega (arith, length-drop n xs, e))
          (omega (arith, l, low)) (All-drop _ n xs s) in
      let whole : longs_of (map f first) ++ longs_of (map f later) ≡ longs_of (map f xs) =
        sym (longs_of-append (map f first) (map f later))
        ∙ ap longs_of (sym (map-append f first later) ∙ ap (map f) (take-drop n xs)) in
      rw z (rw read (rw more (ap (λ ys. some (ys, rest)) whole)))
]

pub copy_ints-words :
    (m : ℕ) (f : ℕ → ℕ) (fuel left : ℕ) (xs rest : List ℕ)
    → 0 < m
    → length xs ≡ left
    → left ≤ fuel
    → copy_ints m f fuel left (xs ++ rest) ≡ some (words_of (map f xs), rest)
unfolding copy_ints read_ints words_of
copy_ints-words m f zero left [] rest p e l = refl
copy_ints-words m f zero left (x ∷ xs) rest p e l = absurd (omega (arith, e, l))
copy_ints-words m f (suc fuel) left xs rest p e l = elim (Bool-cases (left == 0)) [
  | inl z ↦ rw z (no_ints f xs rest (omega (arith, e, ==→eq left 0 z)))
  | inr z ↦
      let n = chunk_size m left in
      let (low, high) = chunk_bounds m left p (ground (arith, z)) in
      let first = take n xs in
      let later = drop n xs in
      let size : length first ≡ n = length-take_le n xs (omega (arith, e, high)) in
      let split : xs ++ rest ≡ first ++ (later ++ rest) =
        ap (λ ys. ys ++ rest) (sym (take-drop n xs)) ∙ append_assoc first later rest in
      let read : read_ints n (xs ++ rest) ≡ some first = rw split (
        rw
          (
            le→leb n (length (first ++ (later ++ rest)))
                (omega (arith, size, length-append first (later ++ rest))),
            read_ints,
          )
          (ap some (take-append first (later ++ rest) n size))) in
      let dropped : drop n (xs ++ rest) ≡ later ++ rest =
        ap (drop n) split ∙ drop-append first (later ++ rest) n size in
      let more =
        copy_ints-words m f fuel (left - n) later rest p (omega (arith, length-drop n xs, e))
          (omega (arith, l, low)) in
      let whole : words_of (map f first) ++ words_of (map f later) ≡ words_of (map f xs) =
        sym (words_of-append (map f first) (map f later))
        ∙ ap words_of (sym (map-append f first later) ∙ ap (map f) (take-drop n xs)) in
      rw z (rw read (rw dropped (rw more (ap (λ ys. some (ys, rest)) whole))))
]

pub map-id : (xs : List ℕ) → map (λ x. x) xs ≡ xs
map-id [] = refl
map-id (x ∷ xs) = ap (λ ys. x ∷ ys) (map-id xs)

pub copy_rest-words :
    (m copy_size fuel : ℕ) (xs : List ℕ)
    → 0 < m
    → length xs ≤ fuel
    → copy_rest m (λ x. x) copy_size fuel xs ≡ words_of xs
unfolding copy_rest reindex_first words_of
copy_rest-words m cs zero [] p l = refl
copy_rest-words m cs zero (x ∷ xs) p l = absurd (omega (arith, l))
copy_rest-words m cs (suc fuel) [] p l = refl
copy_rest-words m cs (suc fuel) (x ∷ xs) p l =
    let all = x ∷ xs in
    let more = copy_rest-words m cs fuel (drop m all) p (omega (arith, length-drop m all, p, l)) in
    let chunk : map (λ y. y) (take cs (take m all)) ++ drop cs (take m all) ≡ take m all =
      ap (λ ys. ys ++ drop cs (take m all)) (map-id (take cs (take m all)))
      ∙ take-drop cs (take m all) in
    rw (==_of_ne (length all) 0 (λ z. omega (arith, z))) (
      rw more (
        ap (λ ys. words_of ys ++ words_of (drop m all)) chunk
        ∙ sym (words_of-append (take m all) (drop m all))
        ∙ ap words_of (take-drop m all)))
