-- ===== src/Replication/Tests.antt =====
-- A run of replication_step at a concrete hypergraph, and its theorems there.
use max_embed.Prelude.{
  ℕ, zero, suc, ◌+◌, ◌-◌, ◌≤◌, ◌<◌, ◌≡◌, refl, false, List, [], ◌∷◌, some, arith, count, elem, to_ℕ,
  ltb, ◌==◌, if◌then◌else◌, length, get_or, All,
}
use max_embed.Mapper.{Tables, construct}
use max_embed.Mapper.Invert.{IsWellFormed}
use max_embed.Mapper.File.{open_mapping}
use max_embed.Partition.Toy.{toy}
use max_embed.Partition.{State}
use max_embed.Partition.Whole.{fill, mark_edges, mark_pins}
use max_embed.PartitionStep.{Hypergraph, relate, partition_step}
use max_embed.PartitionStep.Pages.{edge_nodes, IsPartitionable}
use max_embed.Replication.Chain.{pipeline_fits}
use max_embed.Shrink.{MappingInfo, read_mapping}
use max_embed.Replication.Csr.{Schedule, count_pins, sum_counts, fill_edges, get_node2edge}
use max_embed.Replication.Csr.Events.{IsSchedule, IsHypergraph}
use max_embed.Replication.Csr.Slices.{places}
use max_embed.Replication.Csr.Fill.{count-get_node2edge}
use max_embed.Replication.Scores.{parts_of_edge, add_scores, score_edges, all_nodes, node_score_idx}
use max_embed.Replication.Select.{
  count_edge, count_adjacent, take_candidates, sample_step, select, select_all,
}
use max_embed.Replication.Select.Adjacency.{edge_pins}
use max_embed.Replication.Select.Replica.{IsReplica}
use max_embed.Replication.Assemble.{rep_info, replication_step}
use max_embed.Replication.Assemble.Reps.{rep_info-IsReplica}
use max_embed.Replication.Assemble.Pages.{IsReplicable, replicated_pages_fit}

-- The edges {0, 2}, {1, 2} and {1, 2, 3}.
abbrev graph : Hypergraph
graph = record { c = 4; n = 3; xpins = 0 ∷ 2 ∷ 4 ∷ 7 ∷ []; pins = 0 ∷ 2 ∷ 1 ∷ 2 ∷ 1 ∷ 2 ∷ 3 ∷ [] }

graph-IsHypergraph : IsHypergraph graph
graph-IsHypergraph = record { first = refl; ordered = ordered; nodes = nodes }
  where
    ordered : (i : ℕ) → i < 3 → get_or graph.xpins i 0 ≤ get_or graph.xpins (i + 1) 0
    ordered zero h = omega arith
    ordered (suc zero) h = omega arith
    ordered (suc (suc zero)) h = omega arith
    ordered (suc (suc (suc i))) h = absurd (omega arith)

    nodes : (j : ℕ) → get_or graph.pins j 0 < 4
    nodes zero = omega arith
    nodes (suc zero) = omega arith
    nodes (suc (suc zero)) = omega arith
    nodes (suc (suc (suc zero))) = omega arith
    nodes (suc (suc (suc (suc zero)))) = omega arith
    nodes (suc (suc (suc (suc (suc zero))))) = omega arith
    nodes (suc (suc (suc (suc (suc (suc zero)))))) = omega arith
    nodes (suc (suc (suc (suc (suc (suc (suc j))))))) = omega arith

-- The threads begin with the last rounds.
abbrev schedule : Schedule
schedule = record {
  pin_order = 6 ∷ 0 ∷ 1 ∷ 2 ∷ 3 ∷ 4 ∷ 5 ∷ [];
  edge_order = (2, 6) ∷ (0, 0) ∷ (0, 1) ∷ (1, 2) ∷ (1, 3) ∷ (2, 4) ∷ (2, 5) ∷ [];
  memory = λ k. 9;
}

schedule-IsSchedule : IsSchedule schedule graph
schedule-IsSchedule = (λ f. omega arith, λ f. omega arith)

-- The parts {0, 1} and {2, 3}.
abbrev info : MappingInfo
info = record {
  mapping = 0 ∷ 0 ∷ 1 ∷ 1 ∷ [];
  idx = 0 ∷ 1 ∷ 2 ∷ 3 ∷ [];
  cnt = 1 ∷ 1 ∷ 1 ∷ 1 ∷ [];
  part_cnt = 2;
  vertex_cnt = 4;
  total_cnt = 4;
}

info-IsReplicable : IsReplicable info graph 2 1
info-IsReplicable = record {
  some_room = omega arith;
  parts = parts;
  numbers = omega arith;
  entries = omega arith;
  leaders = omega arith;
  within = omega arith;
  counters = omega arith;
  home = λ b. ground arith;
}
  where
    parts : (k : ℕ) → k < 4 → get_or info.mapping k 0 < 2
    parts zero h = omega arith
    parts (suc zero) h = omega arith
    parts (suc (suc zero)) h = omega arith
    parts (suc (suc (suc zero))) h = omega arith
    parts (suc (suc (suc (suc k)))) h = absurd (omega arith)

-- The further page is made for node 0, the first that the toy sort leaves, and takes node 2.
further_pages : rep_info toy schedule info graph 2 1 ≡ (0 ∷ 2 ∷ []) ∷ []
unfolding rep_info select_all select get_node2edge count_pins sum_counts fill_edges node_score_idx
    score_edges parts_of_edge add_scores all_nodes count_edge count_adjacent take_candidates
    sample_step
further_pages = refl

count-get_node2edge_example :
    let r = get_node2edge schedule graph in
    count 2 (places r.edges (r.idx 1) (r.idx (1 + 1) - r.idx 1))
    ≡ (if ltb 2 3 then count 1 (edge_pins graph 2) else 0)
count-get_node2edge_example =
    count-get_node2edge schedule graph 1 2 graph-IsHypergraph schedule-IsSchedule (omega arith)

rep_info-IsReplica_example :
    All
      (λ rep. (node : ℕ) × (node < 4) × IsReplica info.mapping graph 2 node rep)
      (rep_info toy schedule info graph 2 1)
rep_info-IsReplica_example =
    rep_info-IsReplica toy schedule info graph 2 1 graph-IsHypergraph schedule-IsSchedule
      (omega arith)

replicated_pages_fit_example :
    (words : List ℕ) × (t : Tables) × (replication_step toy schedule info graph 2 1 ≡ some words)
    × (construct (open_mapping words) 4 ≡ some t)
    × IsWellFormed (open_mapping words)
    × ((b k : ℕ)
        → count k (get_or t.block_to_elem b []) ≡ (
            if ltb k 4
            then if ltb b 2
              then to_ℕ (get_or info.mapping k 0 == b)
              else if ltb b (2 + 1)
              then to_ℕ (elem k (get_or (rep_info toy schedule info graph 2 1) (b - 2) []))
              else 0
            else 0))
    × ((b : ℕ) → length (get_or t.block_to_elem b []) ≤ 2)
replicated_pages_fit_example =
    replicated_pages_fit toy schedule info graph 2 1 graph-IsHypergraph schedule-IsSchedule
      info-IsReplicable

abbrev untouched : State ℕ
untouched = record {
  gain = λ t k. 0;
  part_info = λ k. false;
  pins = [];
  partition = λ k. 0;
  part_id = 0;
}

four_nodes : length (edge_nodes graph) ≡ 4
unfolding relate fill mark_edges mark_pins
four_nodes = refl

graph-IsPartitionable : IsPartitionable graph
graph-IsPartitionable = record {
  ordered = graph-IsHypergraph.ordered;
  short = short;
  within = omega arith;
  nodes = (
    omega arith,
    (omega arith, (omega arith, (omega arith, (omega arith, (omega arith, (omega arith, tt)))))),
  );
}
  where
    short : (i : ℕ) → i < 3 → get_or graph.xpins (i + 1) 0 - get_or graph.xpins i 0 < 65536
    short zero h = omega arith
    short (suc zero) h = omega arith
    short (suc (suc zero)) h = omega arith
    short (suc (suc (suc i))) h = absurd (omega arith)

pipeline_fits_example :
    (first : List ℕ) × (words : List ℕ) × (t : Tables) × (partition_step toy graph 2 untouched
      ≡ some first)
    × (replication_step toy schedule (read_mapping first) graph 2 1 ≡ some words)
    × (construct (open_mapping words) 4 ≡ some t)
    × IsWellFormed (open_mapping words)
    × ((b : ℕ) → length (get_or t.block_to_elem b []) ≤ 2)
    × ((k : ℕ) → k < 4 → (b : ℕ) × (0 < count k (get_or t.block_to_elem b [])))
pipeline_fits_example =
    pipeline_fits toy schedule graph graph 2 1 untouched (omega arith) (omega arith)
      (omega (arith, four_nodes)) refl graph-IsHypergraph schedule-IsSchedule graph-IsPartitionable
      (omega arith) (omega arith) (omega arith) (omega arith) (omega arith)
