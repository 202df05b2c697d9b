-- ===== src/Replication/Select/Adjacency.antt =====
-- partition/src/replication_step.cpp, main: the candidates for a further page.
use max_embed.Prelude.{
  ℕ, zero, suc, ◌+◌, ◌-◌, ◌≤◌, ◌<◌, ◌≡◌, refl, ap, true, false, List, [], ◌∷◌, ◌++◌, arith, ltb,
  le→ltb, ltb→lt, if◌then◌else◌, get_or, elem, count, All, All-append, Bool-cases, inl, inr,
}
use max_embed.Partition.{update}
use max_embed.Partition.Split.Sorted.{pins_from}
use max_embed.PartitionStep.{Hypergraph}
use max_embed.Replication.Select.{Adjacent, count_edge, count_adjacent, sample_step}

-- The pins of an edge.
abbrev pub edge_pins : Hypergraph → ℕ → List ℕ
edge_pins g e =
    pins_from g.pins (get_or g.xpins e 0) (get_or g.xpins (e + 1) 0 - get_or g.xpins e 0)

-- Some edge has both nodes.
abbrev pub Shares : Hypergraph → ℕ → ℕ → Type 0
Shares g a b = (e : ℕ) × (e < g.n) × (0 < count a (edge_pins g e)) × (0 < count b (edge_pins g e))

-- What the edges of a node are: edges, and the node is in each.
abbrev pub IsIncident : Hypergraph → (ℕ → ℕ) → ℕ → ℕ → ℕ → Type 0
IsIncident g edges node start end =
    (j : ℕ) → start ≤ j → j < end → (edges j < g.n) × (0 < count node (edge_pins g (edges j)))

module _ (P : ℕ → Type 0) where
  count_edge-All :
      (pins : List ℕ) (n k : ℕ) (m : Adjacent)
      → All P (pins_from pins k n)
      → All P m.keys
      → All P (count_edge pins n k m).keys
  unfolding count_edge
  count_edge-All pins zero k m h all = all
  count_edge-All pins (suc n) k m h all =
      let node = get_or pins k 0 in
      let is_there = elem node m.keys in
      let value = update m.value node ((if is_there then m.value node else 0) + 1) in
      let keys = if is_there then m.keys else m.keys ++ node ∷ [] in
      let all' : All P keys =
        elim is_there as (λ b. All P (if b then m.keys else m.keys ++ node ∷ [])) [
          | true ↦ all
          | false ↦ All-append P m.keys (node ∷ []) all (h.0, tt)
        ] in
      count_edge-All pins n (k + 1) (record { keys = keys; value = value }) h.1 all'

  pub count_adjacent-All :
      (g : Hypergraph) (edges : ℕ → ℕ) (fuel j edge_end step : ℕ) (m : Adjacent)
      → ((i : ℕ) → j ≤ i → i < edge_end → All P (edge_pins g (edges i)))
      → All P m.keys
      → All P (count_adjacent g edges fuel j edge_end step m).keys
  unfolding count_adjacent
  count_adjacent-All g edges zero j edge_end step m h all = all
  count_adjacent-All g edges (suc fuel) j edge_end step m h all =
      let start = get_or g.xpins (edges j) 0 in
      let size = get_or g.xpins (edges j + 1) 0 - start in
      elim (Bool-cases (ltb j edge_end)) [
        | inl e ↦ rw e (
            count_adjacent-All g edges fuel (j + step) edge_end step
              (count_edge g.pins size start m) (λ i a b. h i (omega arith) b)
              (count_edge-All g.pins size start m (h j (omega arith) (ltb→lt j edge_end e)) all))
        | inr e ↦ rw e all
      ]

-- Any fuel that reaches the end gives the same.
pub count_adjacent-enough :
    (g : Hypergraph) (edges : ℕ → ℕ) (fuel fuel' j edge_end step : ℕ) (m : Adjacent)
    → 0 < step
    → edge_end ≤ j + fuel
    → edge_end ≤ j + fuel'
    → count_adjacent g edges fuel j edge_end step m ≡ count_adjacent g edges fuel' j edge_end step m
unfolding count_adjacent
count_adjacent-enough g edges zero zero j edge_end step m pos h k = refl
count_adjacent-enough g edges zero (suc fuel') j edge_end step m pos h k =
    let e = le→ltb j edge_end (omega arith) in rw e
count_adjacent-enough g edges (suc fuel) zero j edge_end step m pos h k =
    let e = le→ltb j edge_end (omega arith) in rw e
count_adjacent-enough g edges (suc fuel) (suc fuel') j edge_end step m pos h k =
    let start = get_or g.xpins (edges j) 0 in
    let size = get_or g.xpins (edges j + 1) 0 - start in
    let next = count_edge g.pins size start m in
    ap (λ r. if ltb j edge_end then r else m)
      (count_adjacent-enough g edges fuel fuel' (j + step) edge_end step next pos (omega arith)
        (omega arith))

pub sample_step_pos : (edge_cnt : ℕ) → 0 < sample_step edge_cnt
unfolding sample_step
sample_step_pos edge_cnt = ground arith
