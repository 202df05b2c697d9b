-- ===== src/Preprocess/Tests.antt =====
-- Runs of read_and_trans and merge_result at concrete lines, and their theorems there.
use max_embed.Prelude.{
  ℕ, ◌+◌, ◌*◌, ◌/◌, zero, suc, ◌^◌, ◌≤◌, ◌<◌, ◌≡◌, refl, List, [], ◌∷◌, none, some, arith, All, map,
  length, take, drop, count, replicate,
}
use max_embed.Words.{words_of, longs_of}
use max_embed.Queries.{open_reader, get, index_at}
use max_embed.Queries.RoundTrip.{keys_of_lines}
use max_embed.Preprocess.{
  tab, newline, get_number, skip_tabs, keep_number, read_numbers, process_line,
}
use max_embed.Preprocess.Fields.{
  value_from, tabbed, digit_fields, digit_code, nonzero, process_line-fields,
}
use max_embed.Preprocess.Files.{TextLine, IsRegular, text}
use max_embed.Preprocess.Merge.{
  find_key, reindex_key, reindex, merge_record, merge_file, merge_files, total_rec, start,
  merge_result,
}
use max_embed.Preprocess.Names.{decode}
use max_embed.Preprocess.Chain.{records_in, read_all, merged_query}
use max_embed.Queries.{collect, write_queries}
use max_embed.PartitionStep.Input.{read_longs, read_ints}
use max_embed.Preprocess.Split.{
  chunk_size, copy_longs, copy_ints, reindex_first, copy_rest, last_chunk, split_body,
  split_train_test,
}

-- Fourteen fields that hold one character each.
abbrev ignored : List (List ℕ)
ignored = replicate 14 (55 ∷ [])

-- The numbers 0x1a and 0x3 around an empty field, and then 0x3 alone.
abbrev first : TextLine
first = record { ignored = ignored; field = 1 ∷ 10 ∷ []; fields = [] ∷ (3 ∷ []) ∷ [] }

abbrev second : TextLine
second = record { ignored = ignored; field = 3 ∷ []; fields = [] }

first_numbers : process_line (text first) ≡ some (26 ∷ 3 ∷ [])
unfolding process_line skip_tabs read_numbers keep_number get_number tabbed digit_fields digit_code
first_numbers = refl

-- An upper-case digit counts as 0.
upper_case : read_numbers (65 ∷ 49 ∷ newline ∷ []) 0 [] ≡ some (1 ∷ [])
unfolding read_numbers keep_number get_number
upper_case = refl

-- A line with too few fields.
short_line : process_line (49 ∷ tab ∷ newline ∷ []) ≡ none
unfolding process_line skip_tabs
short_line = refl

first_few : length (nonzero (map (value_from 0) (first.field ∷ first.fields))) ≤ 26
unfolding nonzero value_from
first_few = omega arith

second_few : length (nonzero (map (value_from 0) (second.field ∷ second.fields))) ≤ 26
unfolding nonzero value_from
second_few = omega arith

-- One number more than the array holds.
too_many : process_line (tabbed ignored (digit_fields (1 ∷ []) (replicate 26 (1 ∷ [])))) ≡ none
unfolding process_line skip_tabs read_numbers keep_number get_number tabbed digit_fields digit_code
too_many = refl

no_tabs : All (All (λ ch. ¬ (ch ≡ tab))) ignored
no_tabs = All_replicate 14
  where
    other : ¬ (55 ≡ tab)
    other e = omega (arith, e)

    All_replicate : (n : ℕ) → All (All (λ ch. ¬ (ch ≡ tab))) (replicate n (55 ∷ []))
    All_replicate zero = tt
    All_replicate (suc n) = ((other, tt), All_replicate n)

first-IsRegular : IsRegular first
first-IsRegular = record {
  fourteen = refl;
  no_tab = no_tabs;
  digits = (omega arith, (omega arith, tt));
  all_digits = (tt, ((omega arith, tt), tt));
  few = first_few;
}

second-IsRegular : IsRegular second
second-IsRegular = record {
  fourteen = refl;
  no_tab = no_tabs;
  digits = (omega arith, tt);
  all_digits = tt;
  few = second_few;
}

process_line-fields_example :
    process_line (text first) ≡ some (nonzero (map (value_from 0) (first.field ∷ first.fields)))
process_line-fields_example =
    process_line-fields ignored first.field first.fields refl no_tabs first-IsRegular.digits
      first-IsRegular.all_digits first_few

merged :
    get (open_reader (merge_result ((2 ∷ 2 ∷ 26 ∷ 3 ∷ 1 ∷ 3 ∷ []) ∷ (1 ∷ 1 ∷ 26 ∷ []) ∷ []))) 1 2
    ≡ 1 ∷ 0 ∷ []
unfolding get open_reader index_at merge_result merge_files merge_file merge_record reindex
    reindex_key find_key total_rec start words_of longs_of
merged = refl

abbrev texts : List (List TextLine)
texts = (first ∷ second ∷ []) ∷ (second ∷ []) ∷ []

records : records_in texts ≡ (26 ∷ 3 ∷ []) ∷ (3 ∷ []) ∷ (3 ∷ []) ∷ []
unfolding nonzero value_from
records = refl

few_keys : length (keys_of_lines (records_in texts)) < 2 ^ 32
unfolding nonzero value_from
few_keys = omega arith

merged_query_example :
    (files : List (List ℕ)) × (names : List ℕ) × (read_all (map (map text) texts) ≡ some files)
    × (let r = open_reader (merge_result files) in
        (r.index_len ≡ length (records_in texts))
        × (r.item_cnt ≡ length names)
        × All (λ k. k < length names) (get r 1 2)
        × (decode names (get r 1 2) ≡ keys_of_lines (take 2 (drop 1 (records_in texts)))))
    × ((k : ℕ) → count k names ≤ 1)
    × ((k : ℕ) → count k names ≤ count k (keys_of_lines (records_in texts)))
merged_query_example =
    merged_query texts 1 2 ((first-IsRegular, (second-IsRegular, tt)), ((second-IsRegular, tt), tt))
      few_keys (omega arith) (omega arith)

-- Four queries, of which three are for training; the buffers hold two numbers.
abbrev three_quarters : ℕ → ℕ
three_quarters n = n * 3 / 4

abbrev queries : List (List ℕ)
queries = (4 ∷ []) ∷ (2 ∷ 5 ∷ []) ∷ (7 ∷ []) ∷ (1 ∷ 0 ∷ 3 ∷ []) ∷ []

-- With is_reindex, and every number renumbered to the next one: the first loop leaves copy_size at 1,
-- so in the file for testing the 0 behind the first key keeps its old number.
stale :
    split_train_test 2 three_quarters (λ x. x + 1) (write_queries 8 queries)
    ≡ some (
      write_queries 8 ((5 ∷ []) ∷ (3 ∷ 6 ∷ []) ∷ (8 ∷ []) ∷ []),
      write_queries 8 ((2 ∷ 0 ∷ 4 ∷ []) ∷ []),
    )
unfolding split_train_test split_body copy_longs copy_ints copy_rest reindex_first last_chunk
    chunk_size read_longs read_ints longs_of words_of write_queries collect
stale = refl
