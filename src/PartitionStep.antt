-- ===== src/PartitionStep.antt =====
-- partition/src/partition_step.cpp, main: the edges of the hypergraph, its partition, and the mapping
-- file that is written of it. The graph is an argument; Input and Text
-- read it from a file.
pub mod RoundTrip
pub mod Pages
pub mod Input
pub mod Text
mod Tests
use max_embed.Prelude.{
  ℕ, zero, suc, ◌+◌, ◌-◌, ◌^◌, Bool, List, [], ◌∷◌, ◌++◌, Option, none, some, ltb, if◌then◌else◌,
  get_or,
}
use max_embed.Words.{u32, u64}
use max_embed.Partition.{Runtime, Edge, State}
use max_embed.Partition.Whole.{partition}

-- What read_hypergraph gives.
pub record Hypergraph : Type 0 where
  pub c : ℕ
  pub n : ℕ
  pub xpins : List ℕ
  pub pins : List ℕ

pub record Related : Type 0 where
  pub related_edge : List Edge
  pub longest_edge : ℕ

-- for (i = 0; i < n; i++): `n` rounds are left.
unfoldable pub relate : List ℕ → ℕ → ℕ → Related → Related
relate xpins zero i r = r
relate xpins (suc n) i r =
    let first = get_or xpins i 0 in
    let second = get_or xpins (i + 1) 0 in
    relate xpins n (i + 1) (
      if ltb (second - first) 2 then r else record {
        related_edge = r.related_edge ++ record { first = first; second = second } ∷ [];
        longest_edge =
            if ltb r.longest_edge (second - first) then second - first else r.longest_edge;
      })

-- The loops that write: `n` rounds are left.
unfoldable pub write_ids : ℕ → ℕ → List ℕ
write_ids zero i = []
write_ids (suc n) i = u32 i ∷ write_ids n (i + 1)

unfoldable pub write_lens : ℕ → List ℕ
write_lens zero = []
write_lens (suc n) = 1 ∷ write_lens n

unfoldable pub write_parts : (ℕ → ℕ) → ℕ → ℕ → List ℕ
write_parts part zero i = []
write_parts part (suc n) i = u32 (part i) ∷ write_parts part n (i + 1)

unfoldable pub write_mapping : ℕ → (ℕ → ℕ) → List ℕ
write_mapping c part = u64 c ++ (u64 c ++ (write_ids c 0 ++ (write_lens c ++ write_parts part c 0)))

module _ (R : Runtime) where
  open R use {Float}

  -- The words of the output file.
  unfoldable pub partition_step : Hypergraph → ℕ → State Float → Option (List ℕ)
  partition_step g cnt_per_part st =
      let r = relate g.xpins g.n 0 (record { related_edge = []; longest_edge = 0 }) in
      elim (partition R g.c r.related_edge r.longest_edge cnt_per_part
        (record st { pins = g.pins; partition = λ k. 2 ^ 64 - 1 })) [
          | none ↦ none
          | some p ↦ some (write_mapping g.c p.part)
        ]
