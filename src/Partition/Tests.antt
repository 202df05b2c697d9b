-- ===== src/Partition/Tests.antt =====
-- Runs of the partitioner's model at concrete inputs, and its theorems there.
use max_embed.Prelude.{
  ℕ, ◌+◌, ◌-◌, ◌/◌, ◌≤◌, ◌<◌, ◌≡◌, refl, Bool, true, false, List, [], ◌∷◌, some, arith, get_or,
  length, count, ltb, if◌then◌else◌, ◌==◌, All, map,
}
use max_embed.Partition.Toy.{toy}
use max_embed.Partition.{Edge, State}
use max_embed.Partition.Split.{sort_pins, sides, place_all, place, copy_back, split_edge}
use max_embed.Partition.Split.Sorted.{of_side, pins_from, sort_pins-sides}
use max_embed.Partition.Core.{devide_core, compute_gains}
use max_embed.Partition.Core.Gains.{IsWithin, compute_gains-table}
use max_embed.Partition.Split.Lists.{pins_of, reversed, long, IsChain}
use max_embed.Partition.Split.Edges.{split_edge-lists, split_edge-IsChain}
use max_embed.Partition.Core.Marks.{devide_core-marks}
use max_embed.Partition.Core.Permute.{IsBisection, devide_core-IsBisection}
use max_embed.Partition.Divide.{divide_start}
use max_embed.Partition.Divide.Tally.{tally}
use max_embed.Partition.Divide.Join.{IsAssigned, IsDistinct}
use max_embed.Partition.Whole.Rest.{range}
use max_embed.Partition.Divide.Balance.{divide_start-parts}
use max_embed.Partition.Whole.{mark_edges, mark_pins, fill, Partitioned, partition}
use max_embed.Partition.Whole.Parts.{appeared_nodes, partition_balanced}

-- The edges {0, 1} and {1, 2}.
abbrev edges : List Edge
edges = record { first = 0; second = 2 } ∷ record { first = 2; second = 4 } ∷ []

abbrev memory : State ℕ
memory = record {
  gain = λ t k. 0;
  part_info = λ k. false;
  pins = 0 ∷ 1 ∷ 1 ∷ 2 ∷ [];
  partition = λ k. 0;
  part_id = 0;
}

abbrev nodes : List ℕ
nodes = 0 ∷ 1 ∷ 2 ∷ []

nodes-IsDistinct : IsDistinct nodes
nodes-IsDistinct k = ground arith

some_appear : length (appeared_nodes memory.pins edges 4).front ≡ 3
unfolding mark_edges mark_pins fill
some_appear = refl

edges-IsChain : IsChain 2 4 0 edges
edges-IsChain = (
  omega arith,
  omega arith,
  omega arith,
  omega arith,
  omega arith,
  (omega arith, omega arith, omega arith, omega arith, omega arith, tt),
)

pins_below : All (λ k. k < 4) memory.pins
pins_below = (omega arith, (omega arith, (omega arith, (omega arith, tt))))

-- The table up to its third element, with something else behind.
abbrev cut_table : ℕ → ℕ
cut_table n = if ltb n 3 then n else 0

cut_table_agrees : (n : ℕ) → n ≤ 2 → n ≡ cut_table n
cut_table_agrees n h = ground arith

edges-IsWithin : All (IsWithin 2) edges
edges-IsWithin =
    ((omega arith, omega arith, omega arith), ((omega arith, omega arith, omega arith), tt))

compute_gains-table_example :
    compute_gains toy nodes edges memory
    ≡ compute_gains (record toy { table = cut_table }) nodes edges memory
compute_gains-table_example =
    compute_gains-table toy cut_table 2 cut_table_agrees nodes edges memory edges-IsWithin

partition_balanced_example :
    (r : Partitioned) × (partition toy 4 edges 2 2 memory ≡ some r)
    × ((k : ℕ) → k < 4 → r.part k ≤ r.last_id)
    × (r.last_id ≤ 4)
    × ((id : ℕ) → tally r.part id (range 0 4) ≤ 2)
partition_balanced_example =
    partition_balanced toy 4 edges 2 2 memory (omega arith) (omega (arith, some_appear))
      edges-IsChain pins_below

divide_start-parts_example :
    (s : State ℕ) × (divide_start toy 2 4 2 nodes edges memory ≡ some s)
    × IsAssigned ((length nodes + 2 - 1) / 2) nodes memory s
    × (s.part_id ≡ memory.part_id + 2)
divide_start-parts_example =
    divide_start-parts toy 2 4 2 nodes edges memory (omega arith) (omega arith) (omega arith)
      nodes-IsDistinct edges-IsChain

devide_core-IsBisection_example :
    IsBisection toy
      (0 ∷ [])
      (1 ∷ 2 ∷ [])
      memory
      (devide_core toy (0 ∷ []) (1 ∷ 2 ∷ []) edges memory)
devide_core-IsBisection_example = devide_core-IsBisection toy (0 ∷ []) (1 ∷ 2 ∷ []) edges memory

-- Node 3 is on side 1.
abbrev on_side_1 : ℕ → Bool
on_side_1 k = k == 3

abbrev edge_pins : List ℕ
edge_pins = 3 ∷ 1 ∷ 2 ∷ []

abbrev whole_edge : Edge
whole_edge = record { first = 0; second = 3 }

sorted_edge : sort_pins 3 on_side_1 edge_pins whole_edge ≡ 1 ∷ 2 ∷ 3 ∷ []
unfolding sort_pins sides place_all place copy_back
sorted_edge = refl

sort_pins-sides_example :
    let xs = pins_from edge_pins 0 3 in
    let zeros = of_side on_side_1 false xs in
    let ones = of_side on_side_1 true xs in
    (get_or (sort_pins 3 on_side_1 edge_pins whole_edge) 1 0
      ≡ (if ltb 1 (length zeros) then get_or zeros 1 0 else get_or ones 1 0))
    × ((sides 3 on_side_1 edge_pins whole_edge).part_0_cnt ≡ length zeros)
    × ((sides 3 on_side_1 edge_pins whole_edge).part_1_cnt ≡ length ones)
    × (length zeros + length ones ≡ 3)
sort_pins-sides_example =
    sort_pins-sides 3 on_side_1 edge_pins whole_edge 1 (omega arith) (omega arith) (omega arith)
      (omega arith)

split_edge-lists_example :
    let s = split_edge 2 on_side_1 edges memory.pins in
    (map (pins_of s.pins) s.edges_1
      ≡ long (map (λ e. of_side on_side_1 false (pins_of memory.pins e)) edges))
    × (map (pins_of s.pins) s.edges_2
        ≡ long (map (λ e. reversed (of_side on_side_1 true (pins_of memory.pins e))) edges))
split_edge-lists_example = split_edge-lists 2 on_side_1 edges memory.pins edges-IsChain

split_edge-IsChain_example :
    let s = split_edge 2 on_side_1 edges memory.pins in
    IsChain 2 4 0 s.edges_1 × IsChain 2 4 0 s.edges_2
split_edge-IsChain_example = split_edge-IsChain 2 on_side_1 edges memory.pins edges-IsChain

halves_distinct : (k : ℕ) → count k (0 ∷ []) + count k (1 ∷ 2 ∷ []) ≤ 1
halves_distinct k = ground arith

devide_core-marks_example :
    let b = devide_core toy (0 ∷ []) (1 ∷ 2 ∷ []) edges memory in
    All (λ k. b.after.part_info k ≡ false) b.left × All (λ k. b.after.part_info k ≡ true) b.right
devide_core-marks_example = devide_core-marks toy (0 ∷ []) (1 ∷ 2 ∷ []) edges memory halves_distinct
