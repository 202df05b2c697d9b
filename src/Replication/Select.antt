-- ===== src/Replication/Select.antt =====
-- partition/src/replication_step.cpp, main: the nodes of a further page. The rounds of the parallel
-- loop write rep_info[i] only, each with a map of its own.
pub mod Adjacency
pub mod Replica
use max_embed.Prelude.{
  ℕ, zero, suc, ◌+◌, ◌-◌, ◌/◌, List, [], ◌∷◌, ◌++◌, ltb, ◌==◌, if◌then◌else◌, get_or, length, elem,
}
use max_embed.Partition.{Runtime, update}
use max_embed.PartitionStep.{Hypergraph}
use max_embed.Replication.Csr.{Node2Edge}

abbrev pub sample_size : ℕ
sample_size = 1000000

-- adjacent_node_cnt: its keys in the order of iteration, which the sort makes irrelevant, and their
-- values.
pub record Adjacent : Type 0 where
  pub keys : List ℕ
  pub value : ℕ → ℕ

-- for (k = node_start; k < node_end; k++) adjacent_node_cnt[pins[k]]++: `n` rounds are left.
unfoldable pub count_edge : List ℕ → ℕ → ℕ → Adjacent → Adjacent
count_edge pins zero k m = m
count_edge pins (suc n) k m =
    let node = get_or pins k 0 in
    let is_there = elem node m.keys in
    count_edge pins n (k + 1) (record {
      keys = if is_there then m.keys else m.keys ++ node ∷ [];
      value = update m.value node ((if is_there then m.value node else 0) + 1);
    })

-- for (j = edge_start; j < edge_end; j += step): on fuel.
unfoldable pub count_adjacent : Hypergraph → (ℕ → ℕ) → ℕ → ℕ → ℕ → ℕ → Adjacent → Adjacent
count_adjacent g edges zero j edge_end step m = m
count_adjacent g edges (suc fuel) j edge_end step m =
    let edge_id = edges j in
    let node_start = get_or g.xpins edge_id 0 in
    let size = get_or g.xpins (edge_id + 1) 0 - node_start in
    let rest =
      count_adjacent g edges fuel (j + step) edge_end step (count_edge g.pins size node_start m) in
    if ltb j edge_end then rest else m

-- rep_info[i].insert(…)
abbrev pub insert_once : ℕ → List ℕ → List ℕ
insert_once k rep = if elem k rep then rep else rep ++ k ∷ []

-- The loop over sorted_candidate_list.
unfoldable pub take_candidates : List ℕ → ℕ → ℕ → List ℕ → List ℕ → List ℕ
take_candidates part_info cnt_per_part node [] rep = rep
take_candidates part_info cnt_per_part node (each ∷ candidates) rep =
    let rest =
      take_candidates part_info cnt_per_part node candidates (
        if get_or part_info node 0 == get_or part_info each 0 then rep else insert_once each rep) in
    if length rep == cnt_per_part then rep else rest

-- std::max((edge_end - edge_start) / SAMPLE_SIZE, 1)
unfoldable pub sample_step : ℕ → ℕ
sample_step edge_cnt = if ltb (edge_cnt / sample_size) 1 then 1 else edge_cnt / sample_size

module _ (R : Runtime) where
  open R use {parallel_sort}

  unfoldable pub select : List ℕ → Hypergraph → Node2Edge → ℕ → ℕ → List ℕ
  select part_info g n2e cnt_per_part node =
      let edge_start = n2e.idx node in
      let edge_end = n2e.idx (node + 1) in
      let m =
        count_adjacent g n2e.edges (edge_end - edge_start) edge_start edge_end
          (sample_step (edge_end - edge_start)) (record { keys = []; value = λ k. 0 }) in
      take_candidates part_info cnt_per_part node
        (parallel_sort (λ a b. ltb (m.value b) (m.value a)) m.keys) (node ∷ [])

  -- for (i = 0; i < rep_part_cnt; i++): `n` rounds are left.
  unfoldable pub select_all : List ℕ → Hypergraph → Node2Edge → ℕ → List ℕ → ℕ → ℕ → List (List ℕ)
  select_all part_info g n2e cnt_per_part by_score zero i = []
  select_all part_info g n2e cnt_per_part by_score (suc n) i =
      select part_info g n2e cnt_per_part (get_or by_score i 0)
      ∷ select_all part_info g n2e cnt_per_part by_score n (i + 1)
