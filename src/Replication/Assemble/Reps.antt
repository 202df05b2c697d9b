-- ===== src/Replication/Assemble/Reps.antt =====
-- partition/src/replication_step.cpp, main: all further pages.
use max_embed.Prelude.{
  ℕ, zero, suc, ◌+◌, ◌-◌, ◌≤◌, ◌<◌, ◌≡◌, refl, ap, true, List, [], ◌∷◌, arith, ltb, get_or, count,
  length, All, All-map, ==_of_eq, ◌==◌,
}
use max_embed.Partition.{Runtime}
use max_embed.PartitionStep.{Hypergraph}
use max_embed.Shrink.{MappingInfo}
use max_embed.Replication.Csr.{Schedule, Node2Edge, get_node2edge}
use max_embed.Replication.Csr.Events.{IsSchedule, IsHypergraph}
use max_embed.Replication.Csr.Slices.{places}
use max_embed.Replication.Csr.Fill.{count-get_node2edge}
use max_embed.Replication.Scores.{score_edges, all_nodes, node_score_idx}
use max_embed.Replication.Select.{select_all}
use max_embed.Replication.Select.Adjacency.{IsIncident}
use max_embed.Replication.Select.Replica.{IsReplica, select-IsReplica}
use max_embed.Replication.Assemble.{rep_info}
use max_embed.Replication.Assemble.Holders.{IsPage}

count-places_pos : (f : ℕ → ℕ) (a n j : ℕ) → a ≤ j → j < a + n → 0 < count (f j) (places f a n)
count-places_pos f a zero j lo hi = absurd (omega arith)
count-places_pos f a (suc n) j lo hi =
    let same : a ≡ j → (f a == f j) ≡ true = λ e. ==_of_eq (f a) (f j) (ap f e) in
    ground (arith, count-places_pos f (a + 1) n j, same)

pub get_node2edge-IsIncident :
    (sched : Schedule) (g : Hypergraph) (v : ℕ)
    → IsHypergraph g
    → IsSchedule sched g
    → v < g.c
    → let r = get_node2edge sched g in IsIncident g r.edges v (r.idx v) (r.idx (v + 1))
get_node2edge-IsIncident sched g v p s hv j lo hi =
    let r = get_node2edge sched g in
    let held = count-get_node2edge sched g v (r.edges j) p s hv in
    let here = count-places_pos r.edges (r.idx v) (r.idx (v + 1) - r.idx v) j lo (omega arith) in
    ground (arith, held, here)

count-all_nodes : (n i k : ℕ) → 0 < count k (all_nodes n i) → k < i + n
unfolding all_nodes
count-all_nodes zero i k h = absurd (omega arith)
count-all_nodes (suc n) i k h = ground (arith, count-all_nodes n (i + 1) k)

-- An entry of a list, or 0 past its end.
get_or-lt : (xs : List ℕ) (i b : ℕ) → 0 < b → ((k : ℕ) → 0 < count k xs → k < b) → get_or xs i 0 < b
get_or-lt [] i b pos h = pos
get_or-lt (x ∷ xs) zero b pos h = h x (ground arith)
get_or-lt (x ∷ xs) (suc i) b pos h = get_or-lt xs i b pos (λ k q. h k (ground (arith, q)))

node_score_idx-lt :
    (R : Runtime) (part_info : List ℕ) (g : Hypergraph) (i : ℕ)
    → 0 < g.c
    → get_or (node_score_idx R part_info g) i 0 < g.c
unfolding node_score_idx
node_score_idx-lt R part_info g i pos =
    let scores = score_edges part_info g g.n 0 (λ k. 0) in
    let by_score = λ (a b : ℕ). ltb (scores b) (scores a) in
    get_or-lt (R.parallel_sort by_score (all_nodes g.c 0)) i g.c pos (λ k h.
      let same = R.count-parallel_sort k by_score (all_nodes g.c 0) in
      omega (arith, count-all_nodes g.c 0 k (omega (arith, same))))

module _ (R : Runtime) (part_info : List ℕ) (g : Hypergraph) (n2e : Node2Edge) (cnt_per_part : ℕ)
    (pos : 0 < cnt_per_part)
    (incident : (v : ℕ) → v < g.c → IsIncident g n2e.edges v (n2e.idx v) (n2e.idx (v + 1))) where
  select_all-IsReplica :
      (by_score : List ℕ) (n i : ℕ)
      → ((k : ℕ) → get_or by_score k 0 < g.c)
      → All
          (λ rep. (node : ℕ) × (node < g.c) × IsReplica part_info g cnt_per_part node rep)
          (select_all R part_info g n2e cnt_per_part by_score n i)
  unfolding select_all
  select_all-IsReplica by_score zero i h = tt
  select_all-IsReplica by_score (suc n) i h =
      let node = get_or by_score i 0 in
      (
        (node, h i, select-IsReplica R part_info g n2e cnt_per_part node pos (incident node (h i))),
        select_all-IsReplica by_score n (i + 1) h,
      )

length-select_all :
    (R : Runtime) (part_info : List ℕ) (g : Hypergraph) (n2e : Node2Edge) (cnt_per_part : ℕ)
    (by_score : List ℕ) (n i : ℕ)
    → length (select_all R part_info g n2e cnt_per_part by_score n i) ≡ n
unfolding select_all
length-select_all R part_info g n2e cnt_per_part by_score zero i = refl
length-select_all R part_info g n2e cnt_per_part by_score (suc n) i =
    ap suc (length-select_all R part_info g n2e cnt_per_part by_score n (i + 1))

module _ (R : Runtime) (sched : Schedule) (info : MappingInfo) (g : Hypergraph)
    (cnt_per_part rep_part_cnt : ℕ) where
  pub length-rep_info : length (rep_info R sched info g cnt_per_part rep_part_cnt) ≡ rep_part_cnt
  unfolding rep_info
  length-rep_info =
      length-select_all R info.mapping g (get_node2edge sched g) cnt_per_part
        (node_score_idx R info.mapping g) rep_part_cnt 0

  -- Every further page is made for some node: it has that node and each node at most once, no more
  -- nodes than fit, and of the others only such as have another home part than that node and share
  -- an edge with it.
  pub rep_info-IsReplica :
      IsHypergraph g
      → IsSchedule sched g
      → 0 < cnt_per_part
      → All
          (λ rep. (node : ℕ) × (node < g.c) × IsReplica info.mapping g cnt_per_part node rep)
          (rep_info R sched info g cnt_per_part rep_part_cnt)
  unfolding rep_info
  rep_info-IsReplica p s pos =
      select_all-IsReplica R info.mapping g (get_node2edge sched g) cnt_per_part pos
        (λ v hv. get_node2edge-IsIncident sched g v p s hv) (node_score_idx R info.mapping g)
        rep_part_cnt 0 (λ k. node_score_idx-lt R info.mapping g k (omega (arith, p.nodes 0)))

  pub rep_info-IsPage :
      IsHypergraph g
      → IsSchedule sched g
      → 0 < cnt_per_part
      → All (IsPage cnt_per_part) (rep_info R sched info g cnt_per_part rep_part_cnt)
  rep_info-IsPage p s pos =
      All-map (rep_info R sched info g cnt_per_part rep_part_cnt) (λ rep h. h.2.0)
        (rep_info-IsReplica p s pos)
