-- ===== src/Replication/Csr/Fill.antt =====
-- partition/src/replication_step.cpp, get_node2edge: the edges of every node.
use max_embed.Prelude.{
  ℕ, suc, ◌+◌, ◌-◌, ◌≤◌, ◌<◌, ◌≡◌, sym, ap, subst, List, [], ◌∷◌, arith, ltb, ◌==◌, ◌&&◌,
  if◌then◌else◌, to_ℕ, get_or, count, ==→eq, Bool-cases, inl, inr,
}
use max_embed.Partition.{update}
use max_embed.PartitionStep.{Hypergraph}
use max_embed.Replication.Csr.{Schedule, count_pins, sum_counts, Filling, fill_edges, get_node2edge}
use max_embed.Replication.Csr.Events.{
  count_if, IsSchedule, IsHypergraph, at_node, at_edge, edge_of_edges, pins_of_node,
}
use max_embed.Replication.Csr.Slices.{
  places, count_pins-lem, sum_counts-step, sum_counts-apart, places-outside, count-places-last,
  cnt-fill_edges,
}
use max_embed.Replication.Select.Adjacency.{edge_pins}

module _ (pins : List ℕ) (idx size : ℕ → ℕ) (c : ℕ) (nodes : (j : ℕ) → get_or pins j 0 < c)
    (apart : (v w : ℕ) → v < w → w < c → idx v + size v ≤ idx w) where
  -- One round puts an edge behind those of its node.
  place_edge :
      (e i node : ℕ) (s : Filling) (v : ℕ)
      → v < c
      → node < c
      → s.cnt v ≤ size v
      → s.cnt node < size node
      → let cnt' = update s.cnt node (s.cnt node + 1) in
        let edges' = update s.edges (s.cnt node + idx node) i in
        count e (places edges' (idx v) (cnt' v))
        ≡ count e (places s.edges (idx v) (s.cnt v)) + to_ℕ ((node == v) && (i == e))
  place_edge e i node s v hv hn room_v room_n =
      let pos = s.cnt node + idx node in
      let edges' = update s.edges pos i in
      elim (Bool-cases (v == node)) [
        | inl same ↦
            let is : v ≡ node = ==→eq v node same in
            let more : s.cnt node + 1 ≡ suc (s.cnt v) = let k = ap s.cnt is in omega (arith, k) in
            let kept =
              places-outside s.edges pos i (idx v) (s.cnt v)
                (let k = ap s.cnt is in let l = ap idx is in ground (arith, k, l)) in
            let last : edges' (idx v + s.cnt v) ≡ i =
              let k = ap s.cnt is in let l = ap idx is in ground (arith, k, l) in
            let put = count-places-last edges' e (idx v) (s.cnt v) in
            let old = ap (count e) kept in
            let hit : to_ℕ (edges' (idx v + s.cnt v) == e) ≡ to_ℕ (i == e) =
              ap (λ x. to_ℕ (x == e)) last in
            let flag : to_ℕ ((node == v) && (i == e)) ≡ to_ℕ (i == e) = ground (arith, is) in
            rw (same, more) (omega (arith, put, old, hit, flag))
        | inr other ↦
            let left : v < node → idx v + size v ≤ idx node = λ h. apart v node h hn in
            let right : node < v → idx node + size node ≤ idx v = λ h. apart node v h hv in
            let kept =
              places-outside s.edges pos i (idx v) (s.cnt v) (ground (arith, left, right)) in
            let flag : to_ℕ ((node == v) && (i == e)) ≡ 0 = ground arith in
            rw (other, kept) (omega (arith, flag))
      ]

  pub count-fill_edges :
      (order : List (ℕ × ℕ)) (s : Filling) (e v : ℕ)
      → v < c
      → ((w : ℕ) → w < c → s.cnt w + count_if (at_node pins w) order ≤ size w)
      → let s' = fill_edges pins idx order s in
        count e (places s'.edges (idx v) (s'.cnt v))
        ≡ count e (places s.edges (idx v) (s.cnt v)) + count_if (at_edge pins v e) order
  unfolding fill_edges
  count-fill_edges [] s e v hv room = omega arith
  count-fill_edges ((i, j) ∷ order) s e v hv room =
      let node = get_or pins j 0 in
      let next : Filling = record {
        cnt = update s.cnt node (s.cnt node + 1);
        edges = update s.edges (s.cnt node + idx node) i;
      } in
      let room_here : s.cnt node < size node = ground (arith, room node (nodes j)) in
      let next_room : (w : ℕ) → w < c → next.cnt w + count_if (at_node pins w) order ≤ size w =
        λ w hw.
          let same : w ≡ node → s.cnt w ≡ s.cnt node = ap s.cnt in
          ground (arith, room w hw, same) in
      let put = place_edge e i node s v hv (nodes j) (omega (arith, room v hv)) room_here in
      omega (arith, put, count-fill_edges order next e v hv next_room)

-- Whatever the order in which the threads do their rounds, the array holds, between a node's place and
-- the next node's, each edge as often as the edge has the node, and nothing else.
pub count-get_node2edge :
    (sched : Schedule) (g : Hypergraph) (v e : ℕ)
    → IsHypergraph g
    → IsSchedule sched g
    → v < g.c
    → let r = get_node2edge sched g in
      count e (places r.edges (r.idx v) (r.idx (v + 1) - r.idx v))
      ≡ (if ltb e g.n then count v (edge_pins g e) else 0)
unfolding get_node2edge
count-get_node2edge sched g v e p (pin_order, edge_order) hv =
    let cnt = count_pins g.pins sched.pin_order (λ k. 0) in
    let idx = sum_counts cnt g.c 1 (λ k. 0) in
    let start : Filling = record { cnt = λ k. 0; edges = sched.memory } in
    let s = fill_edges g.pins idx sched.edge_order start in
    let next : (k : ℕ) → k < g.c → idx (k + 1) ≡ idx k + cnt k =
      λ k h. sum_counts-step cnt g.c 1 (λ m. 0) k (omega arith) (omega arith) in
    let apart : (a b : ℕ) → a < b → b < g.c → idx a + cnt a ≤ idx b = λ a b h hb.
      let gap : a + suc (b - a - 1) ≡ b = omega arith in
      subst (λ k. idx a + cnt a ≤ idx k) gap
        (sum_counts-apart cnt idx g.c a (b - a - 1) next (omega arith)) in
    let counted : (w : ℕ) → cnt w ≡ count_if (at_node g.pins w) sched.edge_order = λ w. omega (
      arith,
      count_pins-lem g.pins sched.pin_order (λ k. 0) w,
      pin_order (λ i. get_or g.pins i 0 == w),
      pins_of_node g w p,
      edge_order (at_node g.pins w),
    ) in
    let filled =
      count-fill_edges g.pins idx cnt g.c p.nodes apart sched.edge_order start e v hv
        (λ w h. omega (arith, counted w)) in
    let all_placed : s.cnt v ≡ idx (v + 1) - idx v =
      omega (arith, cnt-fill_edges g.pins idx sched.edge_order start v, counted v, next v hv) in
    let at = ap (λ n. count e (places s.edges (idx v) n)) (sym all_placed) in
    let spec = edge_of_edges g v e g.n 0 in
    let moved = edge_order (at_edge g.pins v e) in ground (arith, at, filled, moved, spec)
