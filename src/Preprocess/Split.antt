-- ===== src/Preprocess/Split.antt =====
-- partition/preprocess/criteoTB_script/split_train_test.cpp, main: a file of queries is cut in two. The
-- rounding of 0.8 times the number of queries and the shuffled numbers are arguments, as is
-- max_copy_size, the numbers that the buffers hold. `none`: the file is too short, which fread reports
-- and main does not test.
pub mod Copy
pub mod Cut
use max_embed.Prelude.{
  ℕ, zero, suc, ◌+◌, ◌-◌, ◌%◌, ◌^◌, Bool, List, [], ◌∷◌, ◌++◌, Option, none, some, ltb, ◌==◌,
  if◌then◌else◌, get_or, map, length, take, drop,
}
use max_embed.Words.{u64, longs_of, words_of}
use max_embed.PartitionStep.Input.{read_longs, read_ints}

-- copy_size
unfoldable pub chunk_size : ℕ → ℕ → ℕ
chunk_size max_copy_size left = if ltb max_copy_size left then max_copy_size else left

-- while (left > 0), on 64-bit numbers, which `f` changes: what is written, and what is left of the
-- file. Every chunk has at least one number, so `left` rounds are enough.
unfoldable pub copy_longs : ℕ → (ℕ → ℕ) → ℕ → ℕ → List ℕ → Option (List ℕ × List ℕ)
copy_longs m f zero left file = some ([], file)
copy_longs m f (suc fuel) left file =
    let chunk : Option (List ℕ × List ℕ) = elim (read_longs (chunk_size m left) file) [
      | none ↦ none
      | some (xs, rest) ↦ elim (copy_longs m f fuel (left - chunk_size m left) rest) [
        | none ↦ none
        | some (out, rest') ↦ some (longs_of (map f xs) ++ out, rest')
      ]
    ] in
    if left == 0 then some ([], file) else chunk

-- The same on 32-bit numbers.
unfoldable pub copy_ints : ℕ → (ℕ → ℕ) → ℕ → ℕ → List ℕ → Option (List ℕ × List ℕ)
copy_ints m f zero left file = some ([], file)
copy_ints m f (suc fuel) left file =
    let size = chunk_size m left in
    let chunk : Option (List ℕ × List ℕ) = elim (read_ints size file) [
      | none ↦ none
      | some xs ↦ elim (copy_ints m f fuel (left - size) (drop size file)) [
        | none ↦ none
        | some (out, rest) ↦ some (words_of (map f xs) ++ out, rest)
      ]
    ] in
    if left == 0 then some ([], file) else chunk

-- for (i = 0; i < copy_size; i++), on the numbers that were read.
unfoldable pub reindex_first : (ℕ → ℕ) → ℕ → List ℕ → List ℕ
reindex_first f copy_size xs = map f (take copy_size xs) ++ drop copy_size xs

-- while (true): the rest of the file, in chunks of max_copy_size; each has at least one number.
unfoldable pub copy_rest : ℕ → (ℕ → ℕ) → ℕ → ℕ → List ℕ → List ℕ
copy_rest m f copy_size zero file = []
copy_rest m f copy_size (suc fuel) file =
    let rest = copy_rest m f copy_size fuel (drop m file) in
    if length file == 0 then [] else words_of (reindex_first f copy_size (take m file)) ++ rest

-- The copy_size that the first loop leaves; before it the variable has no value.
unfoldable pub last_chunk : ℕ → ℕ → ℕ → ℕ
last_chunk m zero left = 0
last_chunk m (suc fuel) left =
    let rest = last_chunk m fuel (left - m) in if ltb m left then rest else left

abbrev pub sub64 : ℕ → ℕ → ℕ
sub64 offset x = (x + (2 ^ 64 - offset)) % 2 ^ 64

-- The two files behind their headers: `f` renumbers, `copy_size` is left from the first loop.
unfoldable pub split_body : ℕ → (ℕ → ℕ) → ℕ → ℕ → ℕ → List ℕ → Option (List ℕ × List ℕ)
split_body m f copy_size train_len test_len file =
    elim (copy_longs m (λ x. x) train_len train_len file) [
      | none ↦ none
      | some (train_index, file1) ↦ elim (read_longs 1 file1) [
        | none ↦ none
        | some (offsets, file2) ↦
            let test_offset = get_or offsets 0 0 in
            elim (copy_longs m (sub64 test_offset) test_len test_len file2) [
              | none ↦ none
              | some (test_index, file3) ↦ elim (copy_ints m f test_offset test_offset file3) [
                | none ↦ none
                | some (train_data, file4) ↦ some (
                  train_index ++ (longs_of offsets ++ train_data),
                  u64 0 ++ (test_index ++ copy_rest m f copy_size (length file4) file4),
                )
              ]
            ]
      ]
    ]

-- `eighty` is edge_count * 0.8 in a size_t; without is_reindex `f` is the identity.
unfoldable pub split_train_test : ℕ → (ℕ → ℕ) → (ℕ → ℕ) → List ℕ → Option (List ℕ × List ℕ)
split_train_test m eighty f file = elim (read_longs 2 file) [
  | none ↦ none
  | some (sizes, body) ↦
      let edge_count = get_or sizes 0 0 in
      let node_count = get_or sizes 1 0 in
      let train_len = eighty edge_count in
      let test_len = edge_count - train_len in
      elim (split_body m f (last_chunk m train_len train_len) train_len test_len body) [
        | none ↦ none
        | some (train, test) ↦
            some
              (u64 train_len ++ (u64 node_count ++ train), u64 test_len ++ (u64 node_count ++ test))
      ]
]
