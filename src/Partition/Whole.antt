-- ===== src/Partition/Whole.antt =====
-- partition/src/partition.cpp, partition: the nodes of the edges are divided, the others fill parts
-- of their own.
pub mod Rest
pub mod Parts
use max_embed.Prelude.{
  ℕ, zero, suc, ◌+◌, ◌-◌, ◌/◌, Bool, true, false, List, [], ◌∷◌, ◌++◌, Option, none, some, ◌==◌,
  if◌then◌else◌, get_or, length,
}
use max_embed.Partition.{Runtime, Edge, State, update}
use max_embed.Partition.Divide.{divide_start}

-- for (i = each.first; i < each.second; i++) appeared[pins[i]] = true: `n` rounds are left.
-- `appeared` has c entries: pins are below c where a theorem is about the code.
unfoldable pub mark_pins : List ℕ → ℕ → ℕ → (ℕ → Bool) → ℕ → Bool
mark_pins pins zero i appeared = appeared
mark_pins pins (suc n) i appeared =
    mark_pins pins n (i + 1) (update appeared (get_or pins i 0) true)

unfoldable pub mark_edges : List ℕ → List Edge → (ℕ → Bool) → ℕ → Bool
mark_edges pins [] appeared = appeared
mark_edges pins (e ∷ es) appeared =
    mark_edges pins es (mark_pins pins (e.second - e.first) e.first appeared)

-- idx as it is filled from both ends: idx[0 … appear_cnt) and idx[c - dis_cnt … c).
pub record Filled : Type 0 where
  pub front : List ℕ
  pub back : List ℕ

-- for (i = 0; i < c; i++): `n` rounds are left.
unfoldable pub fill : (ℕ → Bool) → ℕ → ℕ → Filled → Filled
fill appeared zero i f = f
fill appeared (suc n) i f =
    fill appeared n (i + 1) (
      if appeared i then record f { front = f.front ++ i ∷ [] } else record f { back = i ∷ f.back })

-- The last loop: p_partition and part_id, with cnt_in_part.
unfoldable pub assign_rest : ℕ → List ℕ → ℕ → ℕ → (ℕ → ℕ) → (ℕ → ℕ) × ℕ
assign_rest cnt_per_part [] cnt_in_part id partition = (partition, id)
assign_rest cnt_per_part (k ∷ ks) cnt_in_part id partition =
    let is_full = cnt_in_part == cnt_per_part in
    let id' = if is_full then id + 1 else id in
    let cnt' = if is_full then 0 else cnt_in_part in
    assign_rest cnt_per_part ks (cnt' + 1) id' (update partition k id')

abbrev pub dst_parts : ℕ → ℕ → ℕ
dst_parts appear_cnt cnt_per_part = (appear_cnt + cnt_per_part - 1) / cnt_per_part

-- What the caller sees: p_partition, and the part_id that is returned.
pub record Partitioned : Type 0 where
  pub part : ℕ → ℕ
  pub last_id : ℕ

module _ (R : Runtime) where
  open R use {Float, shuffle}

  -- `st` is the memory before: the arrays are not initialised, p_pins and p_partition are the
  -- caller's.
  unfoldable pub partition : ℕ → List Edge → ℕ → ℕ → State Float → Option Partitioned
  partition c edges longest_edge cnt_per_part st =
      let f = fill (mark_edges st.pins edges (λ k. false)) c 0 (record { front = []; back = [] }) in
      let n = length f.front in
      elim (divide_start R longest_edge (n + 1) (dst_parts n cnt_per_part) (shuffle f.front) edges
        (record st { part_id = 0 })) [
          | none ↦ none
          | some st' ↦
              let r = assign_rest cnt_per_part f.back 0 st'.part_id st'.partition in
              some (record { part = r.0; last_id = r.1 })
        ]
