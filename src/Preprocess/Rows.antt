-- ===== src/Preprocess/Rows.antt =====
-- partition/preprocess/criteoTB_script/merge_result.cpp: the merged file, by its rows of new numbers.
use max_embed.Prelude.{
  ℕ, suc, ◌+◌, ◌-◌, ◌≡◌, refl, sym, ap, subst, ◌∙◌, List, [], ◌∷◌, ◌++◌, arith, map, length,
  length-append, take,
}
use max_embed.Words.Laws.{take-append, drop-append}
use max_embed.Queries.{Collected, collect, write_queries}
use max_embed.Preprocess.Merge.{
  Reindexer, reindex_key, reindex, Merging, merge_record, merge_file, merge_files, total_rec, start,
  merge_result,
}
use max_embed.Preprocess.Files.{record_words, file_of}

-- The records that are merged one after the other.
abbrev pub merge_all : List (List ℕ) → Merging → Merging
merge_all [] m = m
merge_all (keys ∷ records) m = merge_all records (merge_record keys m)

abbrev pub records_of : List (List (List ℕ)) → List (List ℕ)
records_of [] = []
records_of (records ∷ files) = records ++ records_of files

merge_file-records :
    (records : List (List ℕ)) (m : Merging)
    → merge_file (length records) (record_words records) m ≡ merge_all records m
unfolding merge_file
merge_file-records [] m = refl
merge_file-records (keys ∷ records) m =
    ap
      (λ file.
        merge_file (length records) file
          (merge_record (take (length keys) (keys ++ record_words records)) m))
      (drop-append keys (record_words records) (length keys) refl)
    ∙ ap (λ ks. merge_file (length records) (record_words records) (merge_record ks m))
        (take-append keys (record_words records) (length keys) refl)
    ∙ merge_file-records records (merge_record keys m)

merge_all-append :
    (xs ys : List (List ℕ)) (m : Merging) → merge_all (xs ++ ys) m ≡ merge_all ys (merge_all xs m)
merge_all-append [] ys m = refl
merge_all-append (x ∷ xs) ys m = merge_all-append xs ys (merge_record x m)

merge_files-records :
    (files : List (List (List ℕ))) (m : Merging)
    → merge_files (map file_of files) m ≡ merge_all (records_of files) m
unfolding merge_files
merge_files-records [] m = refl
merge_files-records (records ∷ files) m =
    merge_files-records files (merge_file (length records) (record_words records) m)
    ∙ ap (merge_all (records_of files)) (merge_file-records records m)
    ∙ sym (merge_all-append records (records_of files) m)

total_rec-records :
    (files : List (List (List ℕ))) → total_rec (map file_of files) ≡ length (records_of files)
unfolding total_rec
total_rec-records [] = refl
total_rec-records (records ∷ files) =
    omega (arith, total_rec-records files, length-append records (records_of files))

-- The rows of new numbers.
abbrev pub reindex_all : List (List ℕ) → Reindexer → List (List ℕ) × Reindexer
reindex_all [] r = ([], r)
reindex_all (keys ∷ records) r =
    let (row, r') = reindex keys r in let (rows, r'') = reindex_all records r' in (row ∷ rows, r'')

length-reindex : (keys : List ℕ) (r : Reindexer) → length (reindex keys r).0 ≡ length keys
unfolding reindex
length-reindex [] r = refl
length-reindex (k ∷ keys) r = ap suc (length-reindex keys (reindex_key k r).1)

pub length-reindex_all :
    (records : List (List ℕ)) (r : Reindexer) → length (reindex_all records r).0 ≡ length records
length-reindex_all [] r = refl
length-reindex_all (keys ∷ records) r = ap suc (length-reindex_all records (reindex keys r).1)

abbrev Agrees : Merging → Reindexer → Collected → Type 0
Agrees m r c = (m.new_data ≡ c.all_data) × (m.all_index ≡ c.index) × (m.reindexer ≡ r)

-- The index and the data grow as those of trans_query do for the rows.
pub merge_all-collect :
    (records : List (List ℕ)) (m : Merging)
    → m.sum ≡ length m.new_data
    → Agrees (merge_all records m) (reindex_all records m.reindexer).1 (
        collect
          (reindex_all records m.reindexer).0
          (record { all_data = m.new_data; index = m.all_index }))
unfolding collect merge_record
merge_all-collect [] m h = (refl, refl, refl)
merge_all-collect (keys ∷ records) m h =
    let row = (reindex keys m.reindexer).0 in
    let (rows, r) = reindex_all records (reindex keys m.reindexer).1 in
    let e : m.sum + length keys ≡ length (m.new_data ++ row) =
      omega (arith, h, length-append m.new_data row, length-reindex keys m.reindexer) in
    subst
      (λ n.
        Agrees (merge_all records (merge_record keys m)) r
          (collect rows (record { all_data = m.new_data ++ row; index = m.all_index ++ n ∷ [] })))
      e (merge_all-collect records (merge_record keys m) e)

length-index :
    (rows : List (List ℕ)) (c : Collected)
    → length (collect rows c).index ≡ length c.index + length rows
unfolding collect
length-index [] c = omega arith
length-index (row ∷ rows) c =
    let all_data = c.all_data ++ row in
    omega (
      arith,
      length-index rows (record { all_data = all_data; index = c.index ++ length all_data ∷ [] }),
      length-append c.index (length all_data ∷ []),
    )

-- merge_result writes the file that trans_query would write for the rows of new numbers.
pub merge_result-write_queries :
    (files : List (List (List ℕ)))
    → let (rows, r) = reindex_all (records_of files) start.reindexer in
      merge_result (map file_of files) ≡ write_queries r.node_cnt rows
unfolding merge_result write_queries start
merge_result-write_queries files =
    let (rows, r) = reindex_all (records_of files) start.reindexer in
    let c = collect rows (record { all_data = []; index = 0 ∷ [] }) in
    let (d, i, n) = merge_all-collect (records_of files) start refl in
    let total : total_rec (map file_of files) ≡ length c.index - 1 = omega (
      arith,
      total_rec-records files,
      length-index rows (record { all_data = []; index = 0 ∷ [] }),
      length-reindex_all (records_of files) start.reindexer,
    ) in
    rw (merge_files-records files start, d, i, n, total) refl
