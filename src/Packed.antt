-- ===== src/Packed.antt =====
-- The tables of a mapping file: the rows of the nodes one after the other, and for each row where it
-- starts and how long it is. partition/src/shrink_replication.cpp and
-- partition/src/replication_step.cpp build and write such tables.
use native.Mathlib.Decide.{dec_lt}
use mathlib.Core.List.{append_assoc}
use max_embed.Prelude.{
  ℕ, zero, suc, ◌+◌, ◌^◌, ◌≤◌, ◌<◌, ◌≡◌, refl, sym, ◌∙◌, ap, All, lt→ltb, le→ltb, List, [], ◌∷◌,
  ◌++◌, arith, ltb, if◌then◌else◌, get_or, get_or-append_left, get_or-append_right,
  get_or-append_last, length, length-append,
}
use max_embed.Words.{u64, words_of}
use max_embed.Words.Laws.{words_of_small, get_or-All}
use max_embed.Mapper.File.{open_mapping}
use max_embed.Mapper.Invert.{blocks_from}
use max_embed.PartitionStep.RoundTrip.{open_tables}

blocks_from-append :
    (xs ys : List ℕ) (n j : ℕ) → j + n ≤ length xs → blocks_from (xs ++ ys) n j ≡ blocks_from xs n j
blocks_from-append xs ys zero j h = refl
blocks_from-append xs ys (suc n) j h =
    ap (λ b. b ∷ blocks_from (xs ++ ys) n (j + 1)) (get_or-append_left xs ys j 0 (omega arith))
    ∙ ap (λ bs. get_or xs j 0 ∷ bs) (blocks_from-append xs ys n (j + 1) (omega arith))

-- All that stands after `xs`.
blocks_from-end :
    (xs ys : List ℕ) (j : ℕ) → j ≡ length xs → blocks_from (xs ++ ys) (length ys) j ≡ ys
blocks_from-end xs [] j e = refl
blocks_from-end xs (y ∷ ys) j e =
    let here : get_or (xs ++ y ∷ ys) j 0 ≡ y =
      ap (λ k. get_or (xs ++ y ∷ ys) k 0) (e ∙ sym (add_zero (length xs)))
      ∙ get_or-append_right xs (y ∷ ys) 0 0 in
    let rest =
      blocks_from-end (xs ++ y ∷ []) ys (j + 1) (omega (arith, length-append xs (y ∷ []))) in
    let assoc : (xs ++ y ∷ []) ++ ys ≡ xs ++ y ∷ ys = append_assoc xs (y ∷ []) ys in
    ap (λ b. b ∷ blocks_from (xs ++ y ∷ ys) (length ys) (j + 1)) here
    ∙ ap (λ bs. y ∷ bs) (ap (λ zs. blocks_from zs (length ys) (j + 1)) (sym assoc) ∙ rest)
  where
    add_zero : (n : ℕ) → n + 0 ≡ n
    add_zero n = omega arith

-- The first `i` rows.
pub record IsPacked (rows : ℕ → List ℕ) (i : ℕ) (idx cnt all : List ℕ) : Type 0 where
  pub idx_size : length idx ≡ i
  pub cnt_size : length cnt ≡ i
  pub within : (k : ℕ) → k < i → get_or idx k 0 + get_or cnt k 0 ≤ length all
  pub kept : (k : ℕ) → k < i → blocks_from all (get_or cnt k 0) (get_or idx k 0) ≡ rows k

pub empty-IsPacked : (rows : ℕ → List ℕ) → IsPacked rows 0 [] [] []
empty-IsPacked rows = record {
  idx_size = refl;
  cnt_size = refl;
  within = λ k h. absurd (omega arith);
  kept = λ k h. absurd (omega arith);
}

at_last :
    (xs : List ℕ) (x n k : ℕ)
    → length xs ≡ n
    → k < n + 1
    → get_or (xs ++ x ∷ []) k 0 ≡ (if ltb k n then get_or xs k 0 else x)
at_last xs x n k e h = elim (dec_lt k n) [
  | yes early ↦ rw (lt→ltb k n early) (get_or-append_left xs (x ∷ []) k 0 (omega arith))
  | no late ↦ rw (le→ltb k n (omega arith)) (get_or-append_last xs x k 0 (omega arith))
]

-- One row more.
pub row-IsPacked :
    (rows : ℕ → List ℕ) (i : ℕ) (idx cnt all : List ℕ)
    → IsPacked rows i idx cnt all
    → IsPacked rows (i + 1) (idx ++ length all ∷ []) (cnt ++ length (rows i) ∷ []) (all ++ rows i)
row-IsPacked rows i idx cnt all p =
    let row = rows i in
    let idx_at = λ (k : ℕ) (h : k < i + 1). at_last idx (length all) i k p.idx_size h in
    let cnt_at = λ (k : ℕ) (h : k < i + 1). at_last cnt (length row) i k p.cnt_size h in
    record {
      idx_size = omega (arith, length-append idx (length all ∷ []), p.idx_size);
      cnt_size = omega (arith, length-append cnt (length row ∷ []), p.cnt_size);
      within = λ k h. ground (arith, idx_at k h, cnt_at k h, p.within k, length-append all row);
      kept = λ k h. elim (dec_lt k i) [
        | yes early ↦
            rw (idx_at k h, cnt_at k h, lt→ltb k i early)
              (blocks_from-append all row (get_or cnt k 0) (get_or idx k 0) (p.within k early)
                ∙ p.kept k early)
        | no late ↦
            let e : i ≡ k = omega arith in
            rw (idx_at k h, cnt_at k h, le→ltb k i (omega arith))
              (blocks_from-end all row (length all) refl ∙ ap rows e)
      ];
    }

-- The three tables, when they are written and opened again.
pub open_packed :
    (rows : ℕ → List ℕ) (n : ℕ) (idx cnt all : List ℕ)
    → n < 2 ^ 32
    → length all < 2 ^ 32
    → IsPacked rows n idx cnt all
    → All (λ b. b < 2 ^ 32) all
    → open_mapping (u64 n ++ (u64 (length all) ++ (words_of idx ++ (words_of cnt ++ words_of all))))
      ≡ record {
        item_cnt = n;
        all_blocks_cnt = length all;
        block_idx = idx;
        block_cnt = cnt;
        all_blocks = all;
      }
open_packed rows n idx cnt all few room p small =
    rw
      (
        words_of_small idx (λ j l. omega (arith, p.within j (omega (arith, p.idx_size)))),
        words_of_small cnt (λ j l. omega (arith, p.within j (omega (arith, p.cnt_size)))),
        words_of_small all (λ j l. get_or-All all j small),
      )
      (open_tables n (length all) idx cnt all (omega arith) (omega arith) p.idx_size p.cnt_size
        refl)
