-- ===== src/Queries/Tests.antt =====
-- A run of trans_query and RequestReader at concrete lines, and their theorem there.
use max_embed.Prelude.{ℕ, ◌^◌, ◌<◌, ◌≡◌, refl, List, [], ◌∷◌, arith, All, take, drop}
use max_embed.Words.{words_of, longs_of}
use max_embed.Queries.{collect, write_queries, index_at, open_reader, get}
use max_embed.Queries.RoundTrip.{keys_of_lines, get-write_queries}

abbrev lines : List (List ℕ)
lines = (4 ∷ 2 ∷ []) ∷ (7 ∷ []) ∷ (1 ∷ 0 ∷ []) ∷ []

keys_small : All (λ k. k < 2 ^ 32) (keys_of_lines lines)
keys_small = (omega arith, (omega arith, (omega arith, (omega arith, (omega arith, tt)))))

-- The last batch has one line.
last_batch : get (open_reader (write_queries 8 lines)) 2 2 ≡ 1 ∷ 0 ∷ []
unfolding get open_reader write_queries collect index_at words_of longs_of
last_batch = refl

get-write_queries_example :
    let r = open_reader (write_queries 8 lines) in
    (r.index_len ≡ 3)
    × (r.item_cnt ≡ 8)
    × (r.data_len ≡ 5)
    × (get r 1 2 ≡ keys_of_lines (take 2 (drop 1 lines)))
get-write_queries_example =
    get-write_queries 8 lines 1 2 keys_small (omega arith) (omega arith) (omega arith) (omega arith)
