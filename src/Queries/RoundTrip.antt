-- ===== src/Queries/RoundTrip.antt =====
-- partition/src/trans_query.cpp and client/include/loader.h: the query file, written and read.
use mathlib.Core.List.{append-nil, append_assoc}
use max_embed.Prelude.{
  ℕ, zero, suc, ◌+◌, ◌-◌, ◌*◌, ◌^◌, ◌≤◌, ◌<◌, ◌≡◌, refl, sym, ap, subst, ◌∙◌, List, [], ◌∷◌, ◌++◌,
  arith, ltb, get_or, length, length-append, take, drop, All, Bool-cases, inl, inr,
}
use max_embed.Words.{u64, read_u64, longs_of}
use max_embed.Words.Laws.{
  u64_halves, take-append, take_all, drop-append, length-longs_of, read_u64-longs_of,
  words_of_small, get_or-All,
}
use max_embed.Queries.{Collected, collect, write_queries, index_at, open_reader, get}

-- The keys of some lines, one after the other.
abbrev pub keys_of_lines : List (List ℕ) → List ℕ
keys_of_lines [] = []
keys_of_lines (keys ∷ lines) = keys ++ keys_of_lines lines

-- Where the lines end, when the first starts at `n`.
abbrev pub ends : ℕ → List (List ℕ) → List ℕ
ends n [] = []
ends n (keys ∷ lines) = (n + length keys) ∷ ends (n + length keys) lines

collect-eq :
    (lines : List (List ℕ)) (s : Collected)
    → collect lines s ≡ record {
      all_data = s.all_data ++ keys_of_lines lines;
      index = s.index ++ ends (length s.all_data) lines;
    }
unfolding collect
collect-eq [] s =
    ap (λ d. let c : Collected = record { all_data = d; index = s.index } in c)
      (sym (append-nil s.all_data))
    ∙ ap (λ d. let c : Collected = record { all_data = s.all_data ++ []; index = d } in c)
        (sym (append-nil s.index))
collect-eq (keys ∷ lines) s =
    let all_data = s.all_data ++ keys in
    let here = length-append s.all_data keys in
    let next : Collected = record {
      all_data = all_data;
      index = s.index ++ length all_data ∷ [];
    } in
    let data_eq = append_assoc s.all_data keys (keys_of_lines lines) in
    let index_eq : next.index ++ ends (length all_data) lines
        ≡ s.index ++ ends (length s.all_data) (keys ∷ lines) =
      append_assoc s.index (length all_data ∷ []) (ends (length all_data) lines)
      ∙ ap (λ m. s.index ++ m ∷ ends m lines) here in
    let mk : List ℕ → List ℕ → Collected = λ d i. record { all_data = d; index = i } in
    collect-eq lines next
    ∙ ap (λ d. mk d (next.index ++ ends (length all_data) lines)) data_eq
    ∙ ap (mk (s.all_data ++ (keys ++ keys_of_lines lines))) index_eq

pub length-ends : (n : ℕ) (lines : List (List ℕ)) → length (ends n lines) ≡ length lines
length-ends n [] = refl
length-ends n (keys ∷ lines) = ap suc (length-ends (n + length keys) lines)

get_or-ends :
    (n : ℕ) (lines : List (List ℕ)) (i : ℕ)
    → i ≤ length lines
    → get_or (n ∷ ends n lines) i 0 ≡ n + length (keys_of_lines (take i lines))
get_or-ends n lines zero h = omega arith
get_or-ends n [] (suc i) h = absurd (omega arith)
get_or-ends n (keys ∷ lines) (suc i) h = omega (
  arith,
  get_or-ends (n + length keys) lines i (omega arith),
  length-append keys (keys_of_lines (take i lines)),
)

pub keys-take-drop :
    (i : ℕ) (lines : List (List ℕ))
    → keys_of_lines (take i lines) ++ keys_of_lines (drop i lines) ≡ keys_of_lines lines
keys-take-drop zero lines = refl
keys-take-drop (suc i) [] = refl
keys-take-drop (suc i) (keys ∷ lines) =
    append_assoc keys (keys_of_lines (take i lines)) (keys_of_lines (drop i lines))
    ∙ ap (λ ks. keys ++ ks) (keys-take-drop i lines)

length-keys_split :
    (i k : ℕ) (lines : List (List ℕ))
    → length (keys_of_lines (take (i + k) lines))
      ≡ length (keys_of_lines (take i lines)) + length (keys_of_lines (take k (drop i lines)))
length-keys_split zero k lines =
    let e : 0 + k ≡ k = omega arith in
    ap (λ m. length (keys_of_lines (take m lines))) e ∙ omega arith
length-keys_split (suc i) k [] =
    let e : suc i + k ≡ suc (i + k) = omega arith in
    ap (λ m. length (keys_of_lines (take m []))) e ∙ none_left k
  where
    none_left : (k : ℕ) → 0 ≡ 0 + length (keys_of_lines (take k []))
    none_left zero = refl
    none_left (suc k) = refl
length-keys_split (suc i) k (keys ∷ lines) =
    let e : suc i + k ≡ suc (i + k) = omega arith in
    let all = keys ∷ lines in
    ap (λ m. length (keys_of_lines (take m all))) e
    ∙ omega (
      arith,
      length-keys_split i k lines,
      length-append keys (keys_of_lines (take (i + k) lines)),
      length-append keys (keys_of_lines (take i lines)),
    )

-- The keys between two places are those of the lines between.
slice :
    (i k : ℕ) (lines : List (List ℕ))
    → take
        (length (keys_of_lines (take (i + k) lines)) - length (keys_of_lines (take i lines)))
        (drop (length (keys_of_lines (take i lines))) (keys_of_lines lines))
      ≡ keys_of_lines (take k (drop i lines))
slice i k lines =
    let before = keys_of_lines (take i lines) in
    let batch = keys_of_lines (take k (drop i lines)) in
    let after = keys_of_lines (drop k (drop i lines)) in
    let n = length (keys_of_lines (take (i + k) lines)) - length before in
    let all : keys_of_lines lines ≡ before ++ (batch ++ after) =
      sym (keys-take-drop i lines)
      ∙ ap (λ ks. before ++ ks) (sym (keys-take-drop k (drop i lines))) in
    let size : length batch ≡ n = omega (arith, length-keys_split i k lines) in
    ap (λ ks. take n (drop (length before) ks)) all
    ∙ ap (take n) (drop-append before (batch ++ after) (length before) refl)
    ∙ take-append batch after n size

-- The file, with the loop of trans_query done.
abbrev pub file : ℕ → List (List ℕ) → List ℕ
file node_cnt lines =
    u64 (length lines) ++ (u64 node_cnt ++ (longs_of (0 ∷ ends 0 lines) ++ keys_of_lines lines))

pub write_queries-file :
    (node_cnt : ℕ) (lines : List (List ℕ))
    → All (λ k. k < 2 ^ 32) (keys_of_lines lines)
    → write_queries node_cnt lines ≡ file node_cnt lines
unfolding write_queries
write_queries-file node_cnt lines small =
    let one_less : suc (length lines) - 1 ≡ length lines = omega arith in
    let rest = u64 node_cnt ++ (longs_of (0 ∷ ends 0 lines) ++ keys_of_lines lines) in
    rw
      (
        collect-eq lines (record { all_data = []; index = 0 ∷ [] }),
        length-ends 0 lines,
        words_of_small (keys_of_lines lines) (λ j h. get_or-All (keys_of_lines lines) j small),
      )
      (ap (λ m. u64 m ++ rest) one_less)

after_header : (a b c d j : ℕ) (ws : List ℕ) → read_u64 (a ∷ b ∷ c ∷ d ∷ ws) (4 + j) ≡ read_u64 ws j
after_header a b c d j ws =
    let e : 4 + j ≡ suc (suc (suc (suc j))) = omega arith in
    let high : 4 + j + 1 ≡ suc (suc (suc (suc (j + 1)))) = omega arith in
    ap (λ m. get_or (a ∷ b ∷ c ∷ d ∷ ws) m 0 + 2 ^ 32 * get_or (a ∷ b ∷ c ∷ d ∷ ws) (4 + j + 1) 0) e
    ∙ ap (λ m. get_or ws j 0 + 2 ^ 32 * get_or (a ∷ b ∷ c ∷ d ∷ ws) m 0) high

module _ (node_cnt : ℕ) (lines : List (List ℕ)) (fits : length (keys_of_lines lines) < 2 ^ 64)
    (few : length lines < 2 ^ 63) where
  index_at-file :
      (i : ℕ)
      → i ≤ length lines
      → index_at (file node_cnt lines) i ≡ length (keys_of_lines (take i lines))
  unfolding index_at
  index_at-file i h =
      let idx = 0 ∷ ends 0 lines in
      let keys = keys_of_lines lines in
      let at = get_or-ends 0 lines i h in
      let le = length-append (keys_of_lines (take i lines)) (keys_of_lines (drop i lines)) in
      let split = ap length (keys-take-drop i lines) in
      after_header _ _ _ _ (i + i) (longs_of idx ++ keys)
      ∙ read_u64-longs_of idx keys i (omega (arith, length-ends 0 lines))
          (omega (arith, at, le, split))
      ∙ at
      ∙ omega arith

  keys-file :
      drop ((length lines + 3) + (length lines + 3)) (file node_cnt lines) ≡ keys_of_lines lines
  keys-file =
      drop-append (u64 (length lines) ++ (u64 node_cnt ++ longs_of (0 ∷ ends 0 lines)))
        (keys_of_lines lines) ((length lines + 3) + (length lines + 3))
        (omega (arith, length-longs_of (0 ∷ ends 0 lines), length-ends 0 lines))

take_over :
    {A : Type 0} (n m : ℕ) (xs : List A) → length xs ≤ n → length xs ≤ m → take n xs ≡ take m xs
take_over zero zero xs h k = refl
take_over zero (suc m) [] h k = refl
take_over zero (suc m) (x ∷ xs) h k = absurd (omega arith)
take_over (suc n) zero [] h k = refl
take_over (suc n) zero (x ∷ xs) h k = absurd (omega arith)
take_over (suc n) (suc m) [] h k = refl
take_over (suc n) (suc m) (x ∷ xs) h k =
    ap (λ ys. x ∷ ys) (take_over n m xs (omega arith) (omega arith))

length-drop :
    {A : Type 0} (n : ℕ) (xs : List A) → n ≤ length xs → length (drop n xs) + n ≡ length xs
length-drop zero xs h = omega arith
length-drop (suc n) [] h = absurd (omega arith)
length-drop (suc n) (x ∷ xs) h = omega (arith, length-drop n xs (omega arith))

-- From the file that trans_query writes for lines of 32-bit keys, RequestReader reads back the number
-- of lines and of nodes, and get returns the keys of the lines from the i-th on, as many lines as the
-- batch has, or all that are left where these are fewer.
pub get-write_queries :
    (node_cnt : ℕ) (lines : List (List ℕ)) (i batch_size : ℕ)
    → All (λ k. k < 2 ^ 32) (keys_of_lines lines)
    → length (keys_of_lines lines) < 2 ^ 64
    → length lines < 2 ^ 63
    → node_cnt < 2 ^ 64
    → i ≤ length lines
    → let r = open_reader (write_queries node_cnt lines) in
      (r.index_len ≡ length lines)
      × (r.item_cnt ≡ node_cnt)
      × (r.data_len ≡ length (keys_of_lines lines))
      × (get r i batch_size ≡ keys_of_lines (take batch_size (drop i lines)))
unfolding open_reader get
get-write_queries node_cnt lines i batch_size small fits few nodes h =
    let n = length lines in
    let at = index_at-file node_cnt lines fits few in
    let whole : length (keys_of_lines (take n lines)) ≡ length (keys_of_lines lines) =
      ap (λ ls. length (keys_of_lines ls)) (take_all lines n refl) in
    let left = length-drop i lines h in
    rw
      (
        write_queries-file node_cnt lines small,
        u64_halves n (omega arith),
        u64_halves node_cnt nodes,
      )
      (
        refl,
        refl,
        at n (omega arith) ∙ whole,
        elim (Bool-cases (ltb n (i + batch_size))) [
          | inl over ↦
              let e : i + (n - i) ≡ n = omega arith in
              let batch =
                subst
                  (λ m.
                    take
                      (length (keys_of_lines (take m lines))
                        - length (keys_of_lines (take i lines)))
                      (drop (length (keys_of_lines (take i lines))) (keys_of_lines lines))
                    ≡ keys_of_lines (take (n - i) (drop i lines)))
                  e (slice i (n - i) lines) in
              rw (over, at n (omega arith), at i h, keys-file node_cnt lines fits few)
                (batch
                  ∙ ap keys_of_lines (
                      take_over (n - i) batch_size (drop i lines) (omega (arith, left))
                        (ground (arith, left, over))))
          | inr within ↦
              rw
                (
                  within,
                  at (i + batch_size) (ground (arith, within)),
                  at i h,
                  keys-file node_cnt lines fits few,
                )
                (slice i batch_size lines)
        ],
      )
