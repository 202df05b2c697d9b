-- ===== src/Queries.antt =====
-- partition/src/trans_query.cpp, main, and client/include/loader.h, RequestReader: the binary file of
-- the queries, as one writes it and the other reads it. A line of the text file is given as the list
-- of its keys, which sscanf reads.
pub mod RoundTrip
mod Tests
use max_embed.Prelude.{
  ℕ, ◌+◌, ◌-◌, List, [], ◌∷◌, ◌++◌, ltb, if◌then◌else◌, get_or, length, take, drop,
}
use max_embed.Words.{u64, read_u64, words_of, longs_of}

-- The two vectors of main.
pub record Collected : Type 0 where
  pub all_data : List ℕ
  pub index : List ℕ

-- while (getline(…)): the keys of a line are appended, and where they end.
unfoldable pub collect : List (List ℕ) → Collected → Collected
collect [] s = s
collect (keys ∷ lines) s =
    let all_data = s.all_data ++ keys in
    collect lines (record { all_data = all_data; index = s.index ++ length all_data ∷ [] })

unfoldable pub write_queries : ℕ → List (List ℕ) → List ℕ
write_queries node_cnt lines =
    let s = collect lines (record { all_data = []; index = 0 ∷ [] }) in
    u64 (length s.index - 1) ++ (u64 node_cnt ++ (longs_of s.index ++ words_of s.all_data))

-- The fields of RequestReader: `index` and `data` point into the file.
pub record RequestReader : Type 0 where
  pub words : List ℕ
  pub index_len : ℕ
  pub item_cnt : ℕ
  pub data_len : ℕ

-- index[i]
unfoldable pub index_at : List ℕ → ℕ → ℕ
index_at words i = read_u64 words (4 + (i + i))

unfoldable pub open_reader : List ℕ → RequestReader
open_reader words = record {
  words = words;
  index_len = read_u64 words 0;
  item_cnt = read_u64 words 2;
  data_len = index_at words (read_u64 words 0);
}

-- get(begin() + i, batch_size)
unfoldable pub get : RequestReader → ℕ → ℕ → List ℕ
get r i batch_size =
    let back = if ltb r.index_len (i + batch_size) then r.index_len else i + batch_size in
    let pins = drop ((r.index_len + 3) + (r.index_len + 3)) r.words in
    take (index_at r.words back - index_at r.words i) (drop (index_at r.words i) pins)
