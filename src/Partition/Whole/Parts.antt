-- ===== src/Partition/Whole/Parts.antt =====
-- partition/src/partition.cpp, partition: the parts that result, and their sizes.
use native.Mathlib.Nat.{le-mul_of_pos_right, div-mul-le_self, lt-div-mul-add, le-div_iff_mul-le}
use native.Mathlib.Decide.{dec_lt}
use max_embed.Prelude.{
  ℕ, zero, suc, ◌==◌, if◌then◌else◌, Bool, ◌∷◌, length-append, ◌+◌, ◌-◌, ◌/◌, ◌≤◌, ◌<◌, ◌≡◌, sym,
  subst, true, false, List, [], ◌++◌, some, arith, length, count, elem, count-append, count-eq-zero,
  elem_of_count-zero, elem_of_count-pos, count-pos_of_elem, length_of_count-eq, All, Bool-cases,
  inl, inr,
}
use max_embed.Partition.{Runtime, Edge, State, update}
use max_embed.Partition.Whole.{
  Filled, Partitioned, mark_edges, fill, assign_rest, dst_parts, partition,
}
use max_embed.Partition.Whole.Rest.{
  range, count-fill, count-range, IsFilledUp, assign_rest-IsFilledUp,
}
use max_embed.Partition.Split.Lists.{IsChain}
use max_embed.Partition.Divide.{divide_start}
use max_embed.Partition.Divide.Arith.{le_of_mul}
use max_embed.Partition.Divide.Join.{IsDistinct, IsAssigned, IsAssigned-mono}
use max_embed.Partition.Divide.Balance.{divide_start-parts}
use max_embed.Partition.Divide.Tally.{tally, tally-append, tally_of_count, tally_agree, tally_none}

-- The numbers of parts and their sizes that partition asks divide_start for.
dst_parts_bounds :
    (n bound : ℕ)
    → 0 < n
    → 0 < bound
    → (0 < dst_parts n bound)
      × (dst_parts n bound ≤ n)
      × ((n + dst_parts n bound - 1) / dst_parts n bound ≤ bound)
dst_parts_bounds n bound pos bpos =
    let parts = (n + bound - 1) / bound in
    let some_part : 0 < parts =
      (le-div_iff_mul-le {k = bound} {x = 1} {y = n + bound - 1} bpos).1 (omega arith) in
    let below = div-mul-le_self (n + bound - 1) bound in
    let above = lt-div-mul-add {a = n + bound - 1} {b = bound} bpos in
    let size = div-mul-le_self (n + parts - 1) parts in
    (
      some_part,
      le_of_mul bound parts n (omega (arith, below, le-mul_of_pos_right n bpos)),
      le_of_mul parts ((n + parts - 1) / parts) bound (omega (arith, size, above)),
    )

-- The nodes of the edges, as partition collects them.
abbrev pub appeared_nodes : List ℕ → List Edge → ℕ → Filled
appeared_nodes pins edges c =
    fill (mark_edges pins edges (λ k. false)) c 0 (record { front = []; back = [] })

-- The division and the parts that were filled up after it.
module _ {A : Type 0} (bound : ℕ) (nodes front back : List ℕ) (st s : State A) (r : (ℕ → ℕ) × ℕ)
    (distinct : IsDistinct nodes) (same : (k : ℕ) → count k front + count k back ≡ count k nodes)
    (p : IsAssigned bound front st s) (q : IsFilledUp bound 0 s.part_id back s.partition r) where
  front_kept : (k : ℕ) → elem k front ≡ true → r.0 k ≡ s.partition k
  front_kept k e =
      q.kept k
        (elem_of_count-zero k back (omega (arith, same k, distinct k, count-pos_of_elem k front e)))

  parts_numbered : (k : ℕ) → elem k nodes ≡ true → r.0 k ≤ r.1
  parts_numbered k e = elim (Bool-cases (elem k back)) [
    | inl b ↦ (q.numbered k b).1
    | inr b ↦
        let f : elem k front ≡ true =
          elem_of_count-pos k front
            (omega (arith, same k, count-pos_of_elem k nodes e, count-eq-zero k back b)) in
        omega (arith, front_kept k f, (p.numbered k f).1, q.grows)
  ]

  parts_bounded : (id : ℕ) → tally r.0 id nodes ≤ bound
  parts_bounded id =
      let whole : tally r.0 id nodes ≡ tally r.0 id (front ++ back) =
        tally_of_count r.0 id nodes (front ++ back)
          (λ k. omega (arith, same k, count-append k front back)) in
      let both = tally-append r.0 id front back in
      let fronts = tally_agree r.0 s.partition id front front_kept in
      elim (dec_lt id s.part_id) [
        | yes early ↦
            let none_back = tally_none r.0 id back (λ k e h. omega (arith, (q.numbered k e).0)) in
            omega (arith, whole, both, fronts, none_back, p.bounded id)
        | no late ↦
            let none_front =
              tally_none s.partition id front (λ k e h. omega (arith, (p.numbered k e).1)) in
            omega (arith, whole, both, fronts, none_front, q.bounded id)
      ]

assign_rest-ids :
    (cnt_per_part : ℕ) (ks : List ℕ) (cnt id : ℕ) (partition : ℕ → ℕ)
    → (assign_rest cnt_per_part ks cnt id partition).1 ≤ id + length ks
unfolding assign_rest
assign_rest-ids cnt_per_part [] cnt id partition = omega arith
assign_rest-ids cnt_per_part (k ∷ ks) cnt id partition =
    let is_full = cnt == cnt_per_part in
    let id' = if is_full then id + 1 else id in
    let cnt' = if is_full then 0 else cnt in
    let rest = assign_rest-ids cnt_per_part ks (cnt' + 1) id' (update partition k id') in
    ground (arith, rest)

length-fill :
    (appeared : ℕ → Bool) (n i : ℕ) (f : Filled)
    → length (fill appeared n i f).front + length (fill appeared n i f).back
      ≡ length f.front + length f.back + n
unfolding fill
length-fill appeared zero i f = omega arith
length-fill appeared (suc n) i f = elim (Bool-cases (appeared i)) [
  | inl e ↦
      rw (e, fill)
        (omega (
          arith,
          length-fill appeared n (i + 1) (record f { front = f.front ++ i ∷ [] }),
          length-append f.front (i ∷ []),
        ))
  | inr e ↦
      rw (e, fill) (omega (arith, length-fill appeared n (i + 1) (record f { back = i ∷ f.back })))
]

-- What partition returns, from what divide_start leaves.
partition_after :
    (R : Runtime) (c : ℕ) (edges : List Edge) (longest_edge cnt_per_part : ℕ) (st s : State R.Float)
    → let f = appeared_nodes st.pins edges c in
      let n = length f.front in
      let rest = assign_rest cnt_per_part f.back 0 s.part_id s.partition in
      divide_start R longest_edge
          (n + 1)
          (dst_parts n cnt_per_part)
          (R.shuffle f.front)
          edges
          (record st { part_id = 0 })
        ≡ some s
      → partition R c edges longest_edge cnt_per_part st
        ≡ some (record { part = rest.0; last_id = rest.1 })
unfolding partition
partition_after R c edges longest_edge cnt_per_part st s e = rw (e, partition)

-- On edges that are ranges of p_pins from left to right, none of more than longest_edge or 65535
-- pins, with pins below c, and some node in an edge, partition returns; every node below c is in a
-- part whose number is at most the one returned, which is at most c, and no part has more than
-- cnt_per_part nodes. This is so for any floating point, any sort that permutes, any shuffle and any
-- schedule of the threads.
pub partition_balanced :
    (R : Runtime) (c : ℕ) (edges : List Edge) (longest_edge cnt_per_part : ℕ) (st : State R.Float)
    → 0 < cnt_per_part
    → 0 < length (appeared_nodes st.pins edges c).front
    → IsChain longest_edge (length st.pins) 0 edges
    → All (λ k. k < c) st.pins
    → (r : Partitioned) × (partition R c edges longest_edge cnt_per_part st ≡ some r)
      × ((k : ℕ) → k < c → r.part k ≤ r.last_id)
      × (r.last_id ≤ c)
      × ((id : ℕ) → tally r.part id (range 0 c) ≤ cnt_per_part)
partition_balanced R c edges longest_edge cnt_per_part st pos some_node chain nodes_below =
    let f = appeared_nodes st.pins edges c in
    let n = length f.front in
    let parts = dst_parts n cnt_per_part in
    let (parts_pos, few, size) = dst_parts_bounds n cnt_per_part some_node pos in
    let nodes = R.shuffle f.front in
    let same : (k : ℕ) → count k nodes + count k f.back ≡ count k (range 0 c) = λ k. omega (
      arith,
      R.count-shuffle k f.front,
      count-fill (mark_edges st.pins edges (λ k. false)) c 0 (record { front = []; back = [] }) k,
    ) in
    let distinct : IsDistinct (range 0 c) = λ k. ground (arith, count-range 0 c k) in
    let len : length nodes ≡ n =
      length_of_count-eq nodes f.front (λ k. R.count-shuffle k f.front) in
    let (s, e, a, ids) =
      divide_start-parts R longest_edge (n + 1) parts nodes edges (record st { part_id = 0 })
        parts_pos (omega (arith, len, few)) (omega (arith, len))
        (λ k. omega (arith, same k, distinct k)) chain in
    let up : (length nodes + parts - 1) / parts ≤ cnt_per_part =
      subst (λ x. (x + parts - 1) / parts ≤ cnt_per_part) (sym len) size in
    let assigned = IsAssigned-mono _ cnt_per_part nodes (record st { part_id = 0 }) s up a in
    let rest = assign_rest cnt_per_part f.back 0 s.part_id s.partition in
    let filled =
      assign_rest-IsFilledUp cnt_per_part 0 s.part_id f.back s.partition pos (omega arith)
        (λ k. omega (arith, same k, distinct k)) in
    let below : (k : ℕ) → k < c → elem k (range 0 c) ≡ true =
      λ k h. elem_of_count-pos k (range 0 c) (ground (arith, count-range 0 c k)) in
    (
      record { part = rest.0; last_id = rest.1 },
      partition_after R c edges longest_edge cnt_per_part st s e,
      λ k h.
          parts_numbered cnt_per_part (range 0 c) nodes f.back (record st { part_id = 0 }) s rest
            distinct same assigned filled k (below k h),
      omega (
        arith,
        ids,
        few,
        assign_rest-ids cnt_per_part f.back 0 s.part_id s.partition,
        length-fill (mark_edges st.pins edges (λ k. false)) c 0 (record { front = []; back = [] }),
      ),
      parts_bounded cnt_per_part (range 0 c) nodes f.back (record st { part_id = 0 }) s rest
          distinct same assigned filled,
    )
