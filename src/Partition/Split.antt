-- ===== src/Partition/Split.antt =====
-- partition/src/partition.cpp, split_edge: each edge's pins are sorted by side, and the edge falls
-- into one edge for each side that has more than one pin.
pub mod Sorted
pub mod Lists
pub mod Edges
use max_embed.Prelude.{
  ℕ, zero, suc, ◌+◌, ◌-◌, Bool, true, false, List, [], ◌∷◌, ◌++◌, ltb, if◌then◌else◌, get_or, set,
  replicate,
}
use max_embed.Partition.{Edge, State, u16}

-- temp_pins with the two counters.
pub record Sides : Type 0 where
  pub temp : List ℕ
  pub part_0_cnt : ℕ
  pub part_1_cnt : ℕ

-- One pin goes to the front or to the back of temp_pins. The index is an int, negative only for an
-- edge of more than 65535 pins, of which edge_size keeps 16 bits; shorter edges are what IsChain
-- (Edges) says.
unfoldable pub place : (ℕ → Bool) → ℕ → ℕ → Sides → Sides
place info edge_size pin s =
    if info pin
    then record s {
      temp = set s.temp (edge_size - s.part_1_cnt - 1) pin;
      part_1_cnt = u16 (s.part_1_cnt + 1);
    }
    else record s { temp = set s.temp s.part_0_cnt pin; part_0_cnt = u16 (s.part_0_cnt + 1) }

-- for (i = edge.first; i < edge.second; i++): `n` rounds are left.
unfoldable pub place_all : (ℕ → Bool) → ℕ → List ℕ → ℕ → ℕ → Sides → Sides
place_all info edge_size pins zero i s = s
place_all info edge_size pins (suc n) i s =
    place_all info edge_size pins n (i + 1) (place info edge_size (get_or pins i 0) s)

-- for (j = 0; j < edge_size; j++) p_pins[j + edge.first] = temp_pins[j]
unfoldable pub copy_back : List ℕ → ℕ → ℕ → ℕ → List ℕ → List ℕ
copy_back temp first zero j pins = pins
copy_back temp first (suc n) j pins =
    copy_back temp first n (j + 1) (set pins (j + first) (get_or temp j 0))

unfoldable pub sides : ℕ → (ℕ → Bool) → List ℕ → Edge → Sides
sides longest_edge info pins e =
    place_all info (u16 (e.second - e.first)) pins (e.second - e.first) e.first
      (record { temp = replicate longest_edge 0; part_0_cnt = 0; part_1_cnt = 0 })

-- One edge of the parallel loop: the edges are disjoint ranges, so their order does not matter.
unfoldable pub sort_pins : ℕ → (ℕ → Bool) → List ℕ → Edge → List ℕ
sort_pins longest_edge info pins e =
    copy_back (sides longest_edge info pins e).temp e.first (u16 (e.second - e.first)) 0 pins

-- The new edges of one side.
abbrev pub keep_edge : ℕ → Edge → List Edge → List Edge
keep_edge size e es = if ltb 1 size then e ∷ es else es

pub record Splitted : Type 0 where
  pub pins : List ℕ
  pub edges_1 : List Edge
  pub edges_2 : List Edge

-- Both loops over the edges.
unfoldable pub split_edge : ℕ → (ℕ → Bool) → List Edge → List ℕ → Splitted
split_edge longest_edge info [] pins = record { pins = pins; edges_1 = []; edges_2 = [] }
split_edge longest_edge info (e ∷ es) pins =
    let s = sides longest_edge info pins e in
    let rest = split_edge longest_edge info es (sort_pins longest_edge info pins e) in
    record {
      pins = rest.pins;
      edges_1 =
          keep_edge s.part_0_cnt (record { first = e.first; second = e.first + s.part_0_cnt })
            rest.edges_1;
      edges_2 =
          keep_edge s.part_1_cnt (record { first = e.first + s.part_0_cnt; second = e.second })
            rest.edges_2;
    }
