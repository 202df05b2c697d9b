-- ===== src/Preprocess/Merge.antt =====
-- partition/preprocess/criteoTB_script/merge_result.cpp, main: the files of records are joined, and
-- the keys renumbered in the order in which they first come. The progress messages are left out.
use max_embed.Prelude.{
  ℕ, zero, suc, ◌+◌, List, [], ◌∷◌, ◌++◌, Option, none, some, ◌==◌, if◌then◌else◌, length, take,
  drop, get_or,
}
use max_embed.Words.{u32, u64, words_of, longs_of}

-- `key`, with the entries that came last first, and node_cnt.
pub record Reindexer : Type 0 where
  pub key : List (ℕ × ℕ)
  pub node_cnt : ℕ

-- key.find
unfoldable pub find_key : ℕ → List (ℕ × ℕ) → Option ℕ
find_key k [] = none
find_key k ((j, v) ∷ entries) = let rest = find_key k entries in if j == k then some v else rest

-- One key: its new number, and the map.
unfoldable pub reindex_key : ℕ → Reindexer → ℕ × Reindexer
reindex_key k r = elim (find_key k r.key) [
  | none ↦ (u32 r.node_cnt, record { key = (k, u32 r.node_cnt) ∷ r.key; node_cnt = r.node_cnt + 1 })
  | some new_key ↦ (new_key, r)
]

-- for(k = 0; k < cnt; k++): a record. The two buffers hold 2 ^ 20 keys.
unfoldable pub reindex : List ℕ → Reindexer → List ℕ × Reindexer
reindex [] r = ([], r)
reindex (k ∷ keys) r =
    let (new_key, r') = reindex_key k r in
    let (rest, r'') = reindex keys r' in (new_key ∷ rest, r'')

-- `new_data` is what was written behind the index.
pub record Merging : Type 0 where
  pub reindexer : Reindexer
  pub sum : ℕ
  pub all_index : List ℕ
  pub new_data : List ℕ

-- One record of `cnt` keys.
unfoldable pub merge_record : List ℕ → Merging → Merging
merge_record keys m =
    let (new_keys, r) = reindex keys m.reindexer in
    let sum = m.sum + length keys in
    record {
      reindexer = r;
      sum = sum;
      all_index = m.all_index ++ sum ∷ [];
      new_data = m.new_data ++ new_keys;
    }

-- for(j = 0; j < len; j++), on what fread has not read of the file yet. A file that ends before its
-- records do is read on as an empty one.
unfoldable pub merge_file : ℕ → List ℕ → Merging → Merging
merge_file zero file m = m
merge_file (suc len) file m =
    let cnt = get_or file 0 0 in
    merge_file len (drop cnt (drop 1 file)) (merge_record (take cnt (drop 1 file)) m)

-- The first number of a file says how many records it has.
unfoldable pub merge_files : List (List ℕ) → Merging → Merging
merge_files [] m = m
merge_files (file ∷ files) m = merge_files files (merge_file (get_or file 0 0) (drop 1 file) m)

unfoldable pub total_rec : List (List ℕ) → ℕ
total_rec [] = 0
total_rec (file ∷ files) = get_or file 0 0 + total_rec files

unfoldable pub start : Merging
start = record {
  reindexer = record { key = []; node_cnt = 0 };
  sum = 0;
  all_index = 0 ∷ [];
  new_data = [];
}

-- The words of the file that is written.
unfoldable pub merge_result : List (List ℕ) → List ℕ
merge_result files =
    let m = merge_files files start in
    u64 (total_rec files)
    ++ (u64 m.reindexer.node_cnt ++ (longs_of m.all_index ++ words_of m.new_data))
