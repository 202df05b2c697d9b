-- ===== src/Preprocess/Chain.antt =====
-- partition/preprocess/criteoTB_script and client/include/loader.h: the merged file as RequestReader
-- reads it.
use mathlib.Core.List.{append-nil, append_assoc, map-append}
use max_embed.Prelude.{
  ℕ, zero, suc, ◌+◌, ◌^◌, ◌≤◌, ◌<◌, ◌≡◌, refl, sym, ap, subst, ◌∙◌, List, [], ◌∷◌, ◌++◌, Option,
  none, some, arith, get_or, All, All-map, All-append, map, length, length-append, take, drop,
  count, count-append, length_of_count-le,
}
use max_embed.Queries.{open_reader, get}
use max_embed.Queries.RoundTrip.{keys_of_lines, get-write_queries}
use max_embed.Preprocess.{read_and_trans}
use max_embed.Preprocess.Files.{TextLine, IsRegular, text, numbers, file_of, read_and_trans-text}
use max_embed.Preprocess.Merge.{Reindexer, reindex, start, find_key, merge_result}
use max_embed.Preprocess.Names.{
  decode, decode-append, bound-append, IsNaming, IsNumbered, reindex-names,
}
use max_embed.Preprocess.Rows.{
  records_of, reindex_all, length-reindex_all, merge_result-write_queries,
}

length-map : (f : ℕ → ℕ) (xs : List ℕ) → length (map f xs) ≡ length xs
length-map f [] = refl
length-map f (x ∷ xs) = ap suc (length-map f xs)

map-take : {A B : Type 0} (f : A → B) (n : ℕ) (xs : List A) → map f (take n xs) ≡ take n (map f xs)
map-take f zero xs = refl
map-take f (suc n) [] = refl
map-take f (suc n) (x ∷ xs) = ap (λ ys. f x ∷ ys) (map-take f n xs)

map-drop : {A B : Type 0} (f : A → B) (n : ℕ) (xs : List A) → map f (drop n xs) ≡ drop n (map f xs)
map-drop f zero xs = refl
map-drop f (suc n) [] = refl
map-drop f (suc n) (x ∷ xs) = map-drop f n xs

decode-keys_of_lines :
    (names : List ℕ) (rows : List (List ℕ))
    → decode names (keys_of_lines rows) ≡ keys_of_lines (map (decode names) rows)
decode-keys_of_lines names [] = refl
decode-keys_of_lines names (row ∷ rows) =
    map-append _ row (keys_of_lines rows)
    ∙ ap (λ ks. decode names row ++ ks) (decode-keys_of_lines names rows)

All-left : (P : ℕ → Type 0) (xs ys : List ℕ) → All P (xs ++ ys) → All P xs
All-left P [] ys h = tt
All-left P (x ∷ xs) ys h = (h.0, All-left P xs ys h.1)

All-right : (P : ℕ → Type 0) (xs ys : List ℕ) → All P (xs ++ ys) → All P ys
All-right P [] ys h = h
All-right P (x ∷ xs) ys h = All-right P xs ys h.1

pub All_lines-take :
    (P : ℕ → Type 0) (n : ℕ) (rows : List (List ℕ))
    → All P (keys_of_lines rows)
    → All P (keys_of_lines (take n rows))
All_lines-take P zero rows h = tt
All_lines-take P (suc n) [] h = tt
All_lines-take P (suc n) (row ∷ rows) h =
    All-append _ row _ (All-left P row _ h) (All_lines-take P n rows (All-right P row _ h))

pub All_lines-drop :
    (P : ℕ → Type 0) (n : ℕ) (rows : List (List ℕ))
    → All P (keys_of_lines rows)
    → All P (keys_of_lines (drop n rows))
All_lines-drop P zero rows h = h
All_lines-drop P (suc n) [] h = tt
All_lines-drop P (suc n) (row ∷ rows) h = All_lines-drop P n rows (All-right P row _ h)

-- The rows of new numbers stand for the records, under the keys' names.
pub record IsRenamed (names : List ℕ) (records rows : List (List ℕ)) (r : Reindexer) : Type 0 where
  pub naming : IsNaming names r
  pub bound : All (λ i. i < length names) (keys_of_lines rows)
  pub decoded : map (decode names) rows ≡ records
  pub keys_cnt : length (keys_of_lines rows) ≡ length (keys_of_lines records)

renamed :
    (names m1 m2 keys : List ℕ) (records : List (List ℕ)) (row : List ℕ) (rows : List (List ℕ))
    (r1 r2 : Reindexer)
    → IsNumbered names m1 keys row r1
    → IsRenamed ((names ++ m1) ++ m2) records rows r2
    → IsRenamed (names ++ (m1 ++ m2)) (keys ∷ records) (row ∷ rows) r2
renamed names m1 m2 keys records row rows r1 r2 a b =
    subst (λ ns. IsRenamed ns (keys ∷ records) (row ∷ rows) r2) (append_assoc names m1 m2)
      (record {
        naming = b.naming;
        bound =
            All-append _ row (keys_of_lines rows) (bound-append (names ++ m1) m2 row a.bound)
              b.bound;
        decoded = rw (decode-append (names ++ m1) m2 row a.bound, a.decoded, b.decoded) refl;
        keys_cnt = omega (
          arith,
          b.keys_cnt,
          length-append row (keys_of_lines rows),
          length-append keys (keys_of_lines records),
          ap length a.decoded,
          length-map (λ i. get_or ((names ++ m1)) i 0) row,
        );
      })

reindex_all-names :
    (names : List ℕ) (records : List (List ℕ)) (r : Reindexer)
    → IsNaming names r
    → length names + length (keys_of_lines records) < 2 ^ 32
    → (more : List ℕ) × ((k : ℕ) → count k more ≤ count k (keys_of_lines records))
      × IsRenamed (names ++ more) records (reindex_all records r).0 (reindex_all records r).1
reindex_all-names names [] r n small = (
  [],
  λ k. omega arith,
  record {
    naming = subst (λ ns. IsNaming ns r) (sym (append-nil names)) n;
    bound = tt;
    decoded = refl;
    keys_cnt = refl;
  },
)
reindex_all-names names (keys ∷ records) r n small =
    let (m1, a) =
      reindex-names names keys r n (omega (arith, length-append keys (keys_of_lines records))) in
    let one = length_of_count-le m1 keys a.seen in
    let (m2, seen, b) =
      reindex_all-names (names ++ m1) records (reindex keys r).1 a.naming
        (omega (arith, one, length-append names m1, length-append keys (keys_of_lines records))) in
    (
      m1 ++ m2,
      λ k. omega (
        arith,
        a.seen k,
        seen k,
        count-append k m1 m2,
        count-append k keys (keys_of_lines records),
      ),
      renamed names m1 m2 keys records _ _ _ _ a b,
    )

-- read_and_trans, run for each text.
unfoldable pub read_all : List (List (List ℕ)) → Option (List (List ℕ))
read_all [] = some []
read_all (lines ∷ texts) = elim (read_and_trans lines) [
  | none ↦ none
  | some file ↦ elim (read_all texts) [ none ↦ none | some files ↦ some (file ∷ files) ]
]

read_all-text :
    (texts : List (List TextLine))
    → All (All IsRegular) texts
    → read_all (map (map text) texts) ≡ some (map file_of (map (map numbers) texts))
unfolding read_all
read_all-text [] h = refl
read_all-text (lines ∷ texts) h =
    rw (read_and_trans-text lines h.0, read_all) (rw (read_all-text texts h.1) refl)

first : IsNaming [] start.reindexer
unfolding start find_key
first = record { size = refl; known = λ k v e. cc; unknown = λ k e. refl; once = λ k. omega arith }

abbrev pub records_in : List (List TextLine) → List (List ℕ)
records_in texts = records_of (map (map numbers) texts)

-- Texts of lines with fourteen fields and then hexadecimal fields, of at most 26 numbers that are not
-- zero each, fewer than 2 ^ 32 numbers in all and
-- fewer than 2 ^ 63 lines: read_and_trans and merge_result do not fail, and in the file that they make
-- RequestReader finds as many queries as there are lines and as many items as there are different
-- numbers, each of which occurs; the keys that get returns are below the number of items, and stand,
-- by a list without repetition, for the numbers of the lines from the i-th on.
pub merged_query :
    (texts : List (List TextLine)) (i batch_size : ℕ)
    → All (All IsRegular) texts
    → length (keys_of_lines (records_in texts)) < 2 ^ 32
    → length (records_in texts) < 2 ^ 63
    → i ≤ length (records_in texts)
    → (files : List (List ℕ)) × (names : List ℕ) × (read_all (map (map text) texts) ≡ some files)
      × (let r = open_reader (merge_result files) in
          (r.index_len ≡ length (records_in texts))
          × (r.item_cnt ≡ length names)
          × All (λ k. k < length names) (get r i batch_size)
          × (decode names (get r i batch_size)
              ≡ keys_of_lines (take batch_size (drop i (records_in texts)))))
      × ((k : ℕ) → count k names ≤ 1)
      × ((k : ℕ) → count k names ≤ count k (keys_of_lines (records_in texts)))
merged_query texts i batch_size regular few lines h =
    let files = map (map numbers) texts in
    let records = records_of files in
    let (names, seen, renamed) =
      reindex_all-names [] records start.reindexer first (omega (arith, few)) in
    let (rows, r) = reindex_all records start.reindexer in
    let cnt = length-reindex_all records start.reindexer in
    let names_few = length_of_count-le names (keys_of_lines records) seen in
    let small = All-map (keys_of_lines rows) (λ k l. omega (arith, l, names_few)) renamed.bound in
    let (n, m, _, batch) =
      get-write_queries r.node_cnt rows i batch_size small (omega (arith, renamed.keys_cnt))
        (omega (arith, cnt)) (omega (arith, renamed.naming.size, names_few)) (omega (arith, cnt)) in
    (
      map file_of files,
      names,
      read_all-text texts regular,
      rw (merge_result-write_queries files) (
        n ∙ cnt,
        m ∙ renamed.naming.size,
        subst (All (λ k. k < length names)) (sym batch)
            (All_lines-take _ batch_size (drop i rows) (All_lines-drop _ i rows renamed.bound)),
        ap (decode names) batch
            ∙ decode-keys_of_lines names (take batch_size (drop i rows))
            ∙ ap keys_of_lines (
                map-take (decode names) batch_size (drop i rows)
                ∙ ap (take batch_size)
                    (map-drop (decode names) i rows ∙ ap (drop i) renamed.decoded)),
      ),
      renamed.naming.once,
      seen,
    )
