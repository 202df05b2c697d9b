-- ===== src/Replication/Select/Replica.antt =====
-- partition/src/replication_step.cpp, main: the nodes that a further page gets.
use max_embed.Prelude.{
  ℕ, ◌+◌, ◌-◌, ◌≤◌, ◌<◌, ◌≡◌, ◌≢◌, refl, ap, true, false, List, [], ◌∷◌, ◌++◌, arith, ltb, ◌==◌,
  if◌then◌else◌, get_or, elem, count, count-append, count-eq-zero, all_of_count, count-All,
  elem-append, length, length-append, All, All-append, Bool-cases, ◌⊎◌, inl, inr,
}
use max_embed.Partition.{Runtime}
use max_embed.PartitionStep.{Hypergraph}
use max_embed.Replication.Csr.{Node2Edge}
use max_embed.Replication.Select.{count_adjacent, sample_step, insert_once, take_candidates, select}
use max_embed.Replication.Select.Adjacency.{edge_pins, Shares, IsIncident, count_adjacent-All}
use max_embed.Replication.Assemble.Holders.{IsPage}

insert_once-IsPage :
    (cnt_per_part each : ℕ) (rep : List ℕ)
    → length rep < cnt_per_part
    → IsPage cnt_per_part rep
    → IsPage cnt_per_part (insert_once each rep)
insert_once-IsPage cnt_per_part each rep room p = elim (Bool-cases (elem each rep)) [
  | inl e ↦ rw e p
  | inr e ↦
      let absent = count-eq-zero each rep e in
      let once : (k : ℕ) → count k (rep ++ each ∷ []) ≤ 1 = λ k.
        let same : each ≡ k → count each rep ≡ count k rep = ap (λ j. count j rep) in
        ground (arith, count-append k rep (each ∷ []), p.0 k, same) in
      rw e (once, omega (arith, length-append rep (each ∷ [])))
]

insert_once-All :
    (P : ℕ → Type 0) (each : ℕ) (rep : List ℕ) → P each → All P rep → All P (insert_once each rep)
insert_once-All P each rep h all =
    elim (elem each rep) as (λ b. All P (if b then rep else rep ++ each ∷ [])) [
      | true ↦ all
      | false ↦ All-append P rep (each ∷ []) all (h, tt)
    ]

module _ (part_info : List ℕ) (cnt_per_part node : ℕ) where
  take_candidates-IsPage :
      (candidates rep : List ℕ)
      → IsPage cnt_per_part rep
      → IsPage cnt_per_part (take_candidates part_info cnt_per_part node candidates rep)
  unfolding take_candidates
  take_candidates-IsPage [] rep p = p
  take_candidates-IsPage (each ∷ candidates) rep p =
      elim (Bool-cases (length rep == cnt_per_part)) [
        | inl e ↦ rw e p
        | inr e ↦
            let room : length rep < cnt_per_part = ground (arith, p.1) in
            let same_part = get_or part_info node 0 == get_or part_info each 0 in
            let kept : IsPage cnt_per_part (if same_part then rep else insert_once each rep) =
              elim same_part
                as (λ b. IsPage cnt_per_part (if b then rep else insert_once each rep)) [
                  | true ↦ p
                  | false ↦ insert_once-IsPage cnt_per_part each rep room p
                ] in
            rw e (
              take_candidates-IsPage candidates (if same_part then rep else insert_once each rep)
                kept)
      ]

  take_candidates-All :
      (P : ℕ → Type 0) (candidates rep : List ℕ)
      → All (λ k. get_or part_info k 0 ≢ get_or part_info node 0 → P k) candidates
      → All P rep
      → All P (take_candidates part_info cnt_per_part node candidates rep)
  unfolding take_candidates
  take_candidates-All P [] rep h all = all
  take_candidates-All P (each ∷ candidates) rep h all =
      let same_part = get_or part_info node 0 == get_or part_info each 0 in
      let next = if same_part then rep else insert_once each rep in
      let all' : All P next = elim (Bool-cases same_part) [
        | inl e ↦ rw e all
        | inr e ↦ rw e (insert_once-All P each rep (h.0 (λ q. ground arith)) all)
      ] in
      elim (Bool-cases (length rep == cnt_per_part)) [
        | inl e ↦ rw e all
        | inr e ↦ rw e (take_candidates-All P candidates next h.1 all')
      ]

  take_candidates-elem :
      (k : ℕ) (candidates rep : List ℕ)
      → elem k rep ≡ true
      → elem k (take_candidates part_info cnt_per_part node candidates rep) ≡ true
  unfolding take_candidates
  take_candidates-elem k [] rep h = h
  take_candidates-elem k (each ∷ candidates) rep h =
      let same_part = get_or part_info node 0 == get_or part_info each 0 in
      let next = if same_part then rep else insert_once each rep in
      let kept : elem k next ≡ true = ground (arith, elem-append k rep (each ∷ [])) in
      ground (arith, take_candidates-elem k candidates next kept)

-- A further page for a node has the node itself and each node once, no more nodes than fit, and of
-- the others only such as have another home part and share an edge with the node.
abbrev pub IsReplica : List ℕ → Hypergraph → ℕ → ℕ → List ℕ → Type 0
IsReplica part_info g cnt_per_part node rep =
    IsPage cnt_per_part rep
    × (elem node rep ≡ true)
    × All (λ k. (k ≡ node) ⊎ ((get_or part_info k 0 ≢ get_or part_info node 0) × Shares g node k))
        rep

pub select-IsReplica :
    (R : Runtime) (part_info : List ℕ) (g : Hypergraph) (n2e : Node2Edge) (cnt_per_part node : ℕ)
    → 0 < cnt_per_part
    → IsIncident g n2e.edges node (n2e.idx node) (n2e.idx (node + 1))
    → IsReplica part_info g cnt_per_part node (select R part_info g n2e cnt_per_part node)
unfolding select
select-IsReplica R part_info g n2e cnt_per_part node pos incident =
    let start = n2e.idx node in
    let end = n2e.idx (node + 1) in
    let step = sample_step (end - start) in
    let m =
      count_adjacent g n2e.edges (end - start) start end step
        (record { keys = []; value = λ k. 0 }) in
    let by_count = λ (a b : ℕ). ltb (m.value b) (m.value a) in
    let sorted = R.parallel_sort by_count m.keys in
    let Other : ℕ → Type 0 =
      λ k. (k ≡ node) ⊎ ((get_or part_info k 0 ≢ get_or part_info node 0) × Shares g node k) in
    let shared : All (Shares g node) m.keys =
      count_adjacent-All (Shares g node) g n2e.edges (end - start) start end step
        (record { keys = []; value = λ k. 0 })
        (λ j lo hi.
          let here = incident j lo hi in
          all_of_count (edge_pins g (n2e.edges j)) (λ k q. (n2e.edges j, here.0, here.1, q)))
        tt in
    let candidates : All (λ k. get_or part_info k 0 ≢ get_or part_info node 0 → Other k) sorted =
      all_of_count sorted (λ k q ne. inr (
        ne,
        count-All (Shares g node) k m.keys shared
            (omega (arith, R.count-parallel_sort k by_count m.keys)),
      )) in
    (
      take_candidates-IsPage part_info cnt_per_part node sorted (node ∷ [])
          ((λ k. ground arith), omega arith),
      take_candidates-elem part_info cnt_per_part node node sorted (node ∷ []) (ground arith),
      take_candidates-All part_info cnt_per_part node Other sorted (node ∷ []) candidates
          (inl refl, tt),
    )
