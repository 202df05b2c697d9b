-- ===== src/Replication/Csr.antt =====
-- partition/src/replication_step.cpp, get_node2edge: the edges of every node, as one array with the
-- place where each node's edges start. Arrays of nodes are functions; counters are below 2 ^ 31.
pub mod Events
pub mod Slices
pub mod Fill
use max_embed.Prelude.{ℕ, zero, suc, ◌+◌, ◌-◌, List, [], ◌∷◌, ◌++◌, get_or}
use max_embed.Partition.{update}
use max_embed.PartitionStep.{Hypergraph}

-- The order in which the threads do the rounds of the two parallel loops, and the memory that
-- node2edge_data starts with. A round of the second loop is an edge and a position.
pub record Schedule : Type 0 where
  pub pin_order : List ℕ
  pub edge_order : List (ℕ × ℕ)
  pub memory : ℕ → ℕ

-- atomic_cnt_ptr[pins[i]].fetch_add(1)
unfoldable pub count_pins : List ℕ → List ℕ → (ℕ → ℕ) → ℕ → ℕ
count_pins pins [] cnt = cnt
count_pins pins (i ∷ order) cnt =
    let node = get_or pins i 0 in count_pins pins order (update cnt node (cnt node + 1))

-- for (i = 1; i < c + 1; i++): `n` rounds are left.
unfoldable pub sum_counts : (ℕ → ℕ) → ℕ → ℕ → (ℕ → ℕ) → ℕ → ℕ
sum_counts cnt zero i idx = idx
sum_counts cnt (suc n) i idx = sum_counts cnt n (i + 1) (update idx i (idx (i - 1) + cnt (i - 1)))

pub record Filling : Type 0 where
  pub cnt : ℕ → ℕ
  pub edges : ℕ → ℕ

unfoldable pub fill_edges : List ℕ → (ℕ → ℕ) → List (ℕ × ℕ) → Filling → Filling
fill_edges pins idx [] s = s
fill_edges pins idx ((i, j) ∷ order) s =
    let node = get_or pins j 0 in
    let pos = s.cnt node in
    fill_edges pins idx order
      (record { cnt = update s.cnt node (pos + 1); edges = update s.edges (pos + idx node) i })

pub record Node2Edge : Type 0 where
  pub idx : ℕ → ℕ
  pub edges : ℕ → ℕ

unfoldable pub get_node2edge : Schedule → Hypergraph → Node2Edge
get_node2edge sched g =
    let cnt = count_pins g.pins sched.pin_order (λ k. 0) in
    let idx = sum_counts cnt g.c 1 (λ k. 0) in
    let s =
      fill_edges g.pins idx sched.edge_order (record { cnt = λ k. 0; edges = sched.memory }) in
    record { idx = idx; edges = s.edges }
