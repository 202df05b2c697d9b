-- ===== src/Replication/Scores.antt =====
-- partition/src/replication_step.cpp, main: the score of a node, and the nodes by their scores.
-- The additions of the parallel loop are atomic and commute: they are made in the order of the edges.
use max_embed.Prelude.{
  ℕ, zero, suc, ◌+◌, ◌-◌, List, [], ◌∷◌, ltb, if◌then◌else◌, get_or, length, elem,
}
use max_embed.Partition.{Runtime, update}
use max_embed.PartitionStep.{Hypergraph}

-- part_cnt.insert(part_info[pins[j]]): `n` rounds are left.
unfoldable pub parts_of_edge : List ℕ → List ℕ → ℕ → ℕ → List ℕ → List ℕ
parts_of_edge part_info pins zero j parts = parts
parts_of_edge part_info pins (suc n) j parts =
    let part = get_or part_info (get_or pins j 0) 0 in
    parts_of_edge part_info pins n (j + 1) (if elem part parts then parts else part ∷ parts)

-- atomic_score_ptr[pins[j]].fetch_add(part_cnt.size() - 1)
unfoldable pub add_scores : List ℕ → ℕ → ℕ → ℕ → (ℕ → ℕ) → ℕ → ℕ
add_scores pins gain zero j scores = scores
add_scores pins gain (suc n) j scores =
    let node = get_or pins j 0 in
    add_scores pins gain n (j + 1) (update scores node (scores node + gain))

-- for (i = 0; i < new_n; i++): `n` rounds are left.
unfoldable pub score_edges : List ℕ → Hypergraph → ℕ → ℕ → (ℕ → ℕ) → ℕ → ℕ
score_edges part_info g zero i scores = scores
score_edges part_info g (suc n) i scores =
    let start = get_or g.xpins i 0 in
    let size = get_or g.xpins (i + 1) 0 - start in
    let parts = parts_of_edge part_info g.pins size start [] in
    score_edges part_info g n (i + 1) (add_scores g.pins (length parts - 1) size start scores)

-- node_score_idx[i] = i: `n` rounds are left.
unfoldable pub all_nodes : ℕ → ℕ → List ℕ
all_nodes zero i = []
all_nodes (suc n) i = i ∷ all_nodes n (i + 1)

module _ (R : Runtime) where
  open R use {parallel_sort}

  unfoldable pub node_score_idx : List ℕ → Hypergraph → List ℕ
  node_score_idx part_info g =
      let scores = score_edges part_info g g.n 0 (λ k. 0) in
      parallel_sort (λ a b. ltb (scores b) (scores a)) (all_nodes g.c 0)
