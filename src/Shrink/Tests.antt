-- ===== src/Shrink/Tests.antt =====
-- Runs of shrink_replication at concrete mapping files, and its theorem there.
use max_embed.Prelude.{ℕ, ◌≡◌, refl, List, [], ◌∷◌, some}
use max_embed.Words.{words_of}
use max_embed.Shrink.{
  read_mapping, max_part, push_node, collect_node, collect_parts, max_size, shrink_node, shrink_all,
  write_shrunk, shrink,
}

-- Node 0 is in part 0, node 1 in the parts 0 and 1.
abbrev words : List ℕ
words = 2 ∷ 0 ∷ 3 ∷ 0 ∷ 0 ∷ 1 ∷ 1 ∷ 2 ∷ 0 ∷ 0 ∷ 1 ∷ []

abbrev left_words : List ℕ
left_words = 2 ∷ 0 ∷ 2 ∷ 0 ∷ 0 ∷ 1 ∷ 1 ∷ 1 ∷ 0 ∷ 0 ∷ []

-- The nodes 0 and 1 are in the parts 0 and 1, node 2 is in part 2 only: it is left without a part.
lost :
    shrink 3 (3 ∷ 0 ∷ 5 ∷ 0 ∷ 0 ∷ 2 ∷ 4 ∷ 2 ∷ 2 ∷ 1 ∷ 0 ∷ 1 ∷ 0 ∷ 1 ∷ 2 ∷ [])
    ≡ some (3 ∷ 0 ∷ 4 ∷ 0 ∷ 0 ∷ 2 ∷ 4 ∷ 2 ∷ 2 ∷ 0 ∷ 0 ∷ 1 ∷ 0 ∷ 1 ∷ [])
unfolding shrink read_mapping max_part collect_parts collect_node push_node max_size shrink_all
    shrink_node write_shrunk words_of
lost = refl
