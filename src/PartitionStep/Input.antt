-- ===== src/PartitionStep/Input.antt =====
-- partition/src/partition.cpp, read_binary_hypergraph: the hypergraph of a binary file, which is one of
-- those that trans_query and merge_result write.
use max_embed.Prelude.{
  ℕ, zero, suc, ◌+◌, ◌*◌, ◌^◌, ◌<◌, ◌≡◌, refl, sym, ap, subst, ◌∙◌, List, [], ◌∷◌, ◌++◌, Option,
  none, some, arith, leb, le→leb, if◌then◌else◌, get_or, All, length, length-append, take,
}
use max_embed.Words.{u64, longs_of}
use max_embed.Words.Laws.{u64_halves, take_all}
use max_embed.Queries.{write_queries}
use max_embed.Queries.RoundTrip.{keys_of_lines, ends, file, length-ends, write_queries-file}
use max_embed.PartitionStep.{Hypergraph}

-- fread of `n` numbers of 64 bits, with what follows; `none`: the file is too short for the assert.
unfoldable pub read_longs : ℕ → List ℕ → Option (List ℕ × List ℕ)
read_longs zero words = some ([], words)
read_longs (suc n) [] = none
read_longs (suc n) (low ∷ []) = none
read_longs (suc n) (low ∷ high ∷ words) = elim (read_longs n words) [
  | none ↦ none
  | some (xs, rest) ↦ some ((low + 2 ^ 32 * high) ∷ xs, rest)
]

-- fread of `n` numbers of 32 bits.
unfoldable pub read_ints : ℕ → List ℕ → Option (List ℕ)
read_ints n words = if leb n (length words) then some (take n words) else none

-- The first two numbers are n and c.
unfoldable pub read_binary_hypergraph : List ℕ → Option Hypergraph
read_binary_hypergraph words = elim (read_longs 2 words) [
  | none ↦ none
  | some (sizes, rest) ↦
      let n = get_or sizes 0 0 in
      elim (read_longs (n + 1) rest) [
        | none ↦ none
        | some (xpins, rest') ↦ elim (read_ints (get_or xpins n 0) rest') [
          | none ↦ none
          | some pins ↦ some (record { c = get_or sizes 1 0; n = n; xpins = xpins; pins = pins })
        ]
      ]
]

pub read_longs-longs_of :
    (xs ys : List ℕ)
    → All (λ x. x < 2 ^ 64) xs
    → read_longs (length xs) (longs_of xs ++ ys) ≡ some (xs, ys)
unfolding read_longs longs_of
read_longs-longs_of [] ys h = refl
read_longs-longs_of (x ∷ xs) ys h =
    rw (read_longs-longs_of xs ys h.1, read_longs) (ap (λ y. some (y ∷ xs, ys)) (u64_halves x h.0))

pub read_sizes :
    (n c : ℕ) (body : List ℕ)
    → n < 2 ^ 64
    → c < 2 ^ 64
    → read_longs 2 (u64 n ++ (u64 c ++ body)) ≡ some (n ∷ c ∷ [], body)
unfolding longs_of
read_sizes n c body h k = read_longs-longs_of (n ∷ c ∷ []) body (h, (k, tt))

pub ends_small :
    (n m : ℕ) (lines : List (List ℕ))
    → n + length (keys_of_lines lines) < m
    → All (λ x. x < m) (ends n lines)
ends_small n m [] h = tt
ends_small n m (keys ∷ lines) h =
    let e = length-append keys (keys_of_lines lines) in
    (omega (arith, e, h), ends_small (n + length keys) m lines (omega (arith, e, h)))

get_or-ends_last :
    (n : ℕ) (lines : List (List ℕ))
    → get_or (n ∷ ends n lines) (length lines) 0 ≡ n + length (keys_of_lines lines)
get_or-ends_last n [] = omega arith
get_or-ends_last n (keys ∷ lines) =
    omega
      (arith, get_or-ends_last (n + length keys) lines, length-append keys (keys_of_lines lines))

read_ints_all : (xs : List ℕ) → read_ints (length xs) xs ≡ some xs
unfolding read_ints
read_ints_all xs =
    rw (le→leb (length xs) (length xs) (omega arith), read_ints)
      (ap some (take_all xs (length xs) refl))

read_parts :
    (words body xpins rest pins : List ℕ) (n c : ℕ)
    → read_longs 2 words ≡ some (n ∷ c ∷ [], body)
    → read_longs (n + 1) body ≡ some (xpins, rest)
    → read_ints (get_or xpins n 0) rest ≡ some pins
    → read_binary_hypergraph words ≡ some (record { c = c; n = n; xpins = xpins; pins = pins })
unfolding read_binary_hypergraph
read_parts words body xpins rest pins n c e f g = rw (e, read_binary_hypergraph) (rw f (rw g refl))

-- From the file of queries with 32-bit keys, the partitioner reads a hypergraph with an edge for each
-- query: c and n are the numbers of nodes and of queries, the pins are the queries' keys one after the
-- other, and xpins says where each query's keys begin and end.
pub read_binary_hypergraph-write_queries :
    (node_cnt : ℕ) (lines : List (List ℕ))
    → All (λ k. k < 2 ^ 32) (keys_of_lines lines)
    → length (keys_of_lines lines) < 2 ^ 64
    → length lines < 2 ^ 64
    → node_cnt < 2 ^ 64
    → read_binary_hypergraph (write_queries node_cnt lines)
      ≡ some (record {
        c = node_cnt;
        n = length lines;
        xpins = 0 ∷ ends 0 lines;
        pins = keys_of_lines lines;
      })
read_binary_hypergraph-write_queries node_cnt lines small fits few nodes =
    let keys = keys_of_lines lines in
    let body = longs_of (0 ∷ ends 0 lines) ++ keys in
    let sizes : read_longs 2 (file node_cnt lines) ≡ some (length lines ∷ node_cnt ∷ [], body) =
      read_sizes (length lines) node_cnt body few nodes in
    let cnt : length (0 ∷ ends 0 lines) ≡ length lines + 1 = omega (arith, length-ends 0 lines) in
    let index =
      subst (λ k. read_longs k body ≡ some (0 ∷ ends 0 lines, keys)) cnt
        (read_longs-longs_of (0 ∷ ends 0 lines) keys
          (omega arith, ends_small 0 (2 ^ 64) lines (omega (arith, fits)))) in
    let last : get_or (0 ∷ ends 0 lines) (length lines) 0 ≡ length keys =
      omega (arith, get_or-ends_last 0 lines) in
    ap read_binary_hypergraph (write_queries-file node_cnt lines small)
    ∙ read_parts (file node_cnt lines) body (0 ∷ ends 0 lines) keys keys (length lines) node_cnt
        sizes index (subst (λ k. read_ints k keys ≡ some keys) (sym last) (read_ints_all keys))
